-- ===== src/Scope.antt =====
-- .github/scripts/detect-pr-qualification-scope.py: which qualification workflows a pull request
-- needs, from the paths that it changes.
use oxide_batch_workloads.Base.{
  String, Bool, false, not, ◌&&◌, ◌||◌, ◌==◌, List, [], ◌∷◌, any, contains, starts_with,
  if◌then◌else◌,
}
use oxide_batch_workloads.Base.Text.{strip, is_blank, has_char, ends_with, starts_with_any}

-- `path[len(prefix):]`, where the path starts with the prefix.
unfoldable pub drop_prefix : String → String → String
drop_prefix String.[] path = path
drop_prefix (String.◌∷◌ c prefix) String.[] = String.[]
drop_prefix (String.◌∷◌ c prefix) (String.◌∷◌ d path) = drop_prefix prefix path

abbrev pub workflows : String
workflows = ".github/workflows/"

unfoldable pub workflow_file : String → Bool
unfolding drop_prefix has_char ends_with
workflow_file path =
    if starts_with path workflows && ends_with path ".yml"
    then not (has_char b'/' (drop_prefix workflows path))
    else false

unfoldable pub jberet_clean_path : String → Bool
jberet_clean_path path =
    starts_with path "postgres-postgres/benchmark/java/"
    || contains
        ("postgres-postgres/ci/validate-jberet-clean" ∷ "postgres-postgres/ci/validate-supply-chain"
          ∷ ".github/workflows/jberet-clean.yml" ∷ [])
        path

unfoldable pub jberet_crash_path : String → Bool
jberet_crash_path path =
    path == ".github/workflows/jberet-crash.yml"
    || (starts_with path "postgres-postgres/benchmark/java/jberet/src/test/"
        || (contains
              ("postgres-postgres/benchmark/java/ci/validate-jberet-crash.py"
                ∷ "postgres-postgres/benchmark/java/ci/test-validate-jberet-crash.py"
                ∷ "postgres-postgres/ci/validate-jberet-crash-recovery" ∷ [])
              path
            || (starts_with path "postgres-postgres/benchmark/java/jberet/src/main/"
                || (contains
                      ("postgres-postgres/benchmark/java/jberet/pom.xml"
                        ∷ "postgres-postgres/Cargo.toml" ∷ "postgres-postgres/Cargo.lock"
                        ∷ "postgres-postgres/docker-compose.yml" ∷ [])
                      path
                    || starts_with_any path
                        ("postgres-postgres/src/" ∷ "postgres-postgres/migrations/" ∷ [])))))

unfoldable pub pr4_semantic_path : String → Bool
pr4_semantic_path path =
    starts_with path "postgres-postgres/"
    || contains
        (".github/workflows/pr4-four-way-semantic.yml"
          ∷ ".github/workflows/benchmark-postgres-postgres-four-way.yml" ∷ [])
        path

abbrev pub governance_exact : List String
governance_exact =
    "deny.toml" ∷ "workloads.json" ∷ ".github/labels.json" ∷ ".github/dependabot.yml"
    ∷ ".github/repository-settings-policy.json" ∷ ".github/scripts/audit_issue.py"
    ∷ ".github/scripts/discover-supply-chain-workloads.py"
    ∷ ".github/scripts/validate-supply-chain.py" ∷ ".github/scripts/run-hardening-drift-audit.py"
    ∷ ".github/scripts/report-hardening-drift-audit.py"
    ∷ ".github/scripts/run-scheduled-supply-chain-audit.py"
    ∷ ".github/scripts/report-supply-chain-audit.py" ∷ ".github/scripts/reconcile-labels.py"
    ∷ ".github/scripts/validate-label-taxonomy.py" ∷ ".github/scripts/validate-workflow-security.py"
    ∷ ".github/scripts/test-hardening-drift-audit.py"
    ∷ ".github/scripts/test-cache-producer-guards.py"
    ∷ ".github/scripts/test-scheduled-supply-chain-audit.py"
    ∷ ".github/scripts/test-repository-settings-policy.py"
    ∷ ".github/scripts/test-reconcile-labels.py" ∷ ".github/scripts/test-label-taxonomy.py" ∷ []

unfoldable pub governance_path : String → Bool
unfolding workflow_file
governance_path path =
    contains governance_exact path
    || (starts_with path ".github/ISSUE_TEMPLATE/" || workflow_file path)

-- What `classify` returns.
pub record Scopes : Type 0 where
  pub jberet_clean : Bool
  pub jberet_crash : Bool
  pub pr4_semantic : Bool
  pub governance : Bool

-- The stripped paths that are not blank; the source keeps them in a set.
unfoldable pub normalized : List String → List String
unfolding strip is_blank
normalized [] = []
normalized (path ∷ paths) =
    let rest = normalized paths in if is_blank path then rest else strip path ∷ rest

unfoldable pub classify : List String → Scopes
unfolding normalized jberet_clean_path jberet_crash_path pr4_semantic_path governance_path
classify paths = record {
  jberet_clean = any jberet_clean_path (normalized paths);
  jberet_crash = any jberet_crash_path (normalized paths);
  pr4_semantic = any pr4_semantic_path (normalized paths);
  governance = any governance_path (normalized paths);
}
