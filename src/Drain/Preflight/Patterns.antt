-- ===== src/Drain/Preflight/Patterns.antt =====
-- `matchesStatefulPattern` of pkg/drain/preflight.go, over code points. Letters and blanks are
-- those of ASCII, as in the names that Kubernetes accepts.
use k8s_safed.Base.{
  ◌≡◌, refl, ℕ, ◌+◌, String, Bool, true, false, List, [], ◌∷◌, ◌++◌, map, ◌&&◌, ◌||◌, leb, nat_eq,
  if◌then◌else◌,
}
use k8s_safed.Base.Text.{codes}
use mathlib.Core.List.{reverse}

abbrev lower : ℕ → ℕ
lower c = if leb b'A' c && leb c b'Z' then c + 32 else c

-- strings.ToLower
unfoldable pub to_lower : List ℕ → List ℕ
to_lower = map lower

abbrev is_blank : ℕ → Bool
is_blank c = nat_eq c 32 || (leb 9 c && leb c 13)

abbrev drop_blanks : List ℕ → List ℕ
drop_blanks [] = []
drop_blanks (c ∷ s) = let rest = drop_blanks s in if is_blank c then rest else c ∷ s

-- strings.TrimSpace
unfoldable pub trim_space : List ℕ → List ℕ
trim_space s = reverse (drop_blanks (reverse (drop_blanks s)))

unfoldable pub has_prefix : List ℕ → List ℕ → Bool
has_prefix s [] = true
has_prefix [] (c ∷ p) = false
has_prefix (d ∷ s) (c ∷ p) = nat_eq d c && has_prefix s p

-- strings.Contains
unfoldable pub contains : List ℕ → List ℕ → Bool
unfolding has_prefix
contains [] p = has_prefix [] p
contains (d ∷ s) p = has_prefix (d ∷ s) p || contains s p

abbrev pub default_stateful_patterns : List String
default_stateful_patterns =
    "postgres" ∷ "postgresql" ∷ "pgbouncer" ∷ "pgpool" ∷ "pgpool2" ∷ "patroni" ∷ "mysql" ∷ "mariadb"
    ∷ "percona" ∷ "vitess" ∷ "redis" ∷ "keydb" ∷ "mongo" ∷ "mongodb" ∷ "elasticsearch"
    ∷ "opensearch" ∷ "solr" ∷ "kafka" ∷ "zookeeper" ∷ "redpanda" ∷ "rabbitmq" ∷ "nats" ∷ "etcd"
    ∷ "cassandra" ∷ "scylla" ∷ "cockroach" ∷ "clickhouse" ∷ "yugabyte" ∷ "minio" ∷ "vault"
    ∷ "memcached" ∷ []

abbrev pub is_nil : List ℕ → Bool
is_nil [] = true
is_nil (c ∷ s) = false

-- A pattern that is empty once it is trimmed matches nothing.
unfoldable pub pattern_matches : List ℕ → List ℕ → Bool
pattern_matches name p = if is_nil p then false else contains name p

-- The first pattern that matches, in lower case and trimmed, or the empty text.
unfoldable pub first_match : List ℕ → List String → List ℕ
first_match name [] = []
first_match name (p ∷ patterns) =
    let p' = trim_space (to_lower (codes p)) in
    if pattern_matches name p' then p' else first_match name patterns

unfoldable pub matches_stateful_pattern : String → List String → List ℕ
unfolding first_match pattern_matches trim_space to_lower contains
matches_stateful_pattern name additional =
    first_match (to_lower (codes name)) (additional ++ default_stateful_patterns)

pattern_example : matches_stateful_pattern "My-Ledger-0" (" Ledger " ∷ []) ≡ codes "ledger"
unfolding matches_stateful_pattern
pattern_example = refl
