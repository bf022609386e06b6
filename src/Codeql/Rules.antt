-- ===== src/Codeql/Rules.antt =====
-- The security queries that must have run (REQUIRED), and the diagnostics of the extraction
-- (EXTRACTION).
use oxide_batch_workloads.Base.{String, Option, none, some, List, [], ◌∷◌}
use oxide_batch_workloads.Codeql.{Language, actions, python, rust, java_kotlin}

unfoldable pub required : Language → List String
required actions =
    "actions/untrusted-checkout-toctou/critical" ∷ "actions/untrusted-checkout-toctou/high"
    ∷ "actions/missing-workflow-permissions" ∷ "actions/cache-poisoning/direct-cache"
    ∷ "actions/cache-poisoning/poisonable-step" ∷ "actions/cache-poisoning/code-injection"
    ∷ "actions/artifact-poisoning/critical" ∷ "actions/untrusted-checkout/high"
    ∷ "actions/untrusted-checkout/critical" ∷ "actions/vulnerable-action"
    ∷ "actions/code-injection/critical" ∷ "actions/improper-access-control"
    ∷ "actions/secrets-in-artifacts" ∷ "actions/excessive-secrets-exposure"
    ∷ "actions/unmasked-secret-exposure" ∷ "actions/envvar-injection/critical"
    ∷ "actions/envpath-injection/critical" ∷ []
required python =
    "py/use-of-input" ∷ "py/sql-injection" ∷ "py/full-ssrf" ∷ "py/command-line-injection"
    ∷ "py/code-injection" ∷ "py/unsafe-deserialization" ∷ "py/ldap-injection" ∷ "py/xpath-injection"
    ∷ "py/xxe" ∷ "py/template-injection" ∷ "py/paramiko-missing-host-key-validation"
    ∷ "py/path-injection" ∷ "py/insecure-temporary-file" ∷ "py/weak-sensitive-data-hashing"
    ∷ "py/regex-injection" ∷ "py/flask-debug" ∷ "py/csrf-protection-disabled" ∷ []
required java_kotlin =
    "java/sql-injection" ∷ "java/command-line-injection" ∷ "java/unsafe-deserialization"
    ∷ "java/xss" ∷ "java/ssrf" ∷ "java/path-injection" ∷ "java/zipslip" ∷ "java/xxe"
    ∷ "java/ldap-injection" ∷ "java/jndi-injection" ∷ "java/weak-cryptographic-algorithm"
    ∷ "java/unsafe-hostname-verification" ∷ "java/insecure-trustmanager"
    ∷ "java/missing-jwt-signature-check" ∷ "java/spring-disabled-csrf-protection"
    ∷ "java/regex-injection" ∷ "java/unvalidated-url-forward" ∷ []
required rust =
    "rust/insecure-cookie" ∷ "rust/xss" ∷ "rust/access-invalid-pointer"
    ∷ "rust/cleartext-transmission" ∷ "rust/weak-cryptographic-algorithm"
    ∷ "rust/weak-sensitive-data-hashing" ∷ "rust/uncontrolled-allocation-size"
    ∷ "rust/sql-injection" ∷ "rust/hard-coded-cryptographic-value" ∷ "rust/request-forgery"
    ∷ "rust/non-https-url" ∷ "rust/command-line-injection" ∷ "rust/disabled-certificate-check"
    ∷ "rust/path-injection" ∷ "rust/cleartext-logging" ∷ "rust/cleartext-storage-database"
    ∷ "rust/regex-injection" ∷ []

-- The identifiers of the extracted files, of the expected ones, and of a warning.
pub record Diagnostics : Type 0 where
  pub actual : String
  pub expected : String
  pub warning : Option String

unfoldable pub extraction : Language → Diagnostics
extraction actions = record {
  actual = "actions/diagnostics/successfully-extracted-files";
  expected = "cli/expected-extracted-files/actions";
  warning = none;
}
extraction python = record {
  actual = "py/diagnostics/successfully-extracted-files";
  expected = "cli/expected-extracted-files/python";
  warning = some "py/diagnostics/extraction-warnings";
}
extraction java_kotlin = record {
  actual = "java/diagnostics/successfully-extracted-files";
  expected = "cli/expected-extracted-files/java";
  warning = some "java/diagnostics/extraction-warnings";
}
extraction rust = record {
  actual = "rust/diagnostics/successfully-extracted-files";
  expected = "cli/expected-extracted-files/rust";
  warning = some "rust/diagnostics/extraction-warnings";
}
