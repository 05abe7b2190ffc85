-- ===== src/Tests/Lines.antt =====
-- The lines of the log, at one example.
use k8s_safed.Base.{◌≡◌, refl}
use k8s_safed.Base.Text.{codes}
use k8s_safed.Drain.Printer.{start, level_text, columns}
use k8s_safed.Drain.Printer.Columns.{read_columns, read_columns-columns}

read_columns-columns_example :
    read_columns
      (columns (codes "15:04:05") (codes "Deployment/default/api") start (codes "Rolling restart"))
    ≡ (codes "Deployment/default/api", (level_text start, codes "Rolling restart"))
read_columns-columns_example =
    read_columns-columns (codes "15:04:05") (codes "Deployment/default/api") start
      (codes "Rolling restart") refl refl
