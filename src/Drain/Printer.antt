-- ===== src/Drain/Printer.antt =====
-- pkg/drain/printer.go, over code points: the lines of the log. The runs of the other modules leave
-- out what they print.
pub mod Columns
use k8s_safed.Base.{ℕ, zero, suc, ◌-◌, String, List, [], ◌∷◌, ◌++◌, ◌==◌, length, if◌then◌else◌}
use k8s_safed.Base.Text.{codes}
use k8s_safed.Cluster.Objects.{Time}

pub data LogFormat : Type 0 where
  plain json : LogFormat

-- A LogFormat is a text, and any but "json" prints plain lines.
unfoldable pub log_format : String → LogFormat
log_format text = if text == "json" then json else plain

pub data Level : Type 0 where
  info start done poll dryrun warn : Level

unfoldable pub level_text : Level → List ℕ
level_text info = codes "info"
level_text start = codes "start"
level_text done = codes "done"
level_text poll = codes "poll"
level_text dryrun = codes "dryrun"
level_text warn = codes "warn"

-- What the package time makes of instants.
pub record TimeText : Type 0 where
  -- Format("15:04:05")
  pub clock : Time → List ℕ
  -- UTC().Format(time.RFC3339)
  pub timestamp : Time → List ℕ
  -- Sub, Round(time.Millisecond) and String
  pub elapsed : Time → Time → List ℕ

-- The object of a line in the format json.
pub record Entry : Type 0 where
  pub ts : List ℕ
  pub level : List ℕ
  pub subject : List ℕ
  pub msg : List ℕ

pub data Line : Type 0 where
  plain_line : List ℕ → Line
  json_line : Entry → Line

-- `lines` is what was written, newest first.
pub record Printer : Type 0 where
  pub format : LogFormat
  pub lines : List Line

-- NewPrinterWithFormat
unfoldable pub new_printer_with_format : String → Printer
unfolding log_format
new_printer_with_format text = record { format = log_format text; lines = [] }

unfoldable pub blanks : ℕ → List ℕ
blanks zero = []
blanks (suc n) = 32 ∷ blanks n

-- `%-*s`: blanks on the right up to the width.
unfoldable pub pad : ℕ → List ℕ → List ℕ
pad width s = s ++ blanks (width - length s)

-- `fmt.Fprintf(p.out, "[safed] %s  %-*s  %-6s  %s\n", ts, subjectWidth, subject, level, msg)`
unfoldable pub columns : List ℕ → List ℕ → Level → List ℕ → List ℕ
columns ts subject level msg =
    codes "[safed] "
    ++ (ts
        ++ (32
            ∷ 32
            ∷ (pad 32 subject
                ++ (32 ∷ 32 ∷ (pad 6 (level_text level) ++ (32 ∷ 32 ∷ (msg ++ (10 ∷ []))))))))

module _ (times : TimeText) (now : Time) where
  unfoldable pub render : LogFormat → Level → List ℕ → List ℕ → Line
  render plain level subject msg = plain_line (columns (times.clock now) subject level msg)
  render json level subject msg =
      json_line (record {
        ts = times.timestamp now;
        level = level_text level;
        subject = subject;
        msg = msg;
      })

  unfoldable pub emit : Level → List ℕ → List ℕ → Printer → Printer
  emit level subject msg p = record p { lines = render p.format level subject msg ∷ p.lines }

  -- Elapsed
  unfoldable pub emit_elapsed : Time → List ℕ → List ℕ → Printer → Printer
  emit_elapsed since subject msg =
      emit done subject (msg ++ (codes " (" ++ (times.elapsed now since ++ codes ")")))
