-- ===== src/Discovery/Accepted.antt =====
-- The discovery output of an accepted registry, as the synthesis script reads it.
use oxide_batch_workloads.Base.{
  ◌≡◌, refl, ◌≢◌, String, Bool, true, false, not, ◌&&◌, Option, none, some, List, [], ◌∷◌, ◌++◌,
  map, map-append, is_some, contains, distinct, all, arith, eq_iff, All,
}
use oxide_batch_workloads.Base.Dict.{lookup}
use oxide_batch_workloads.Base.Json.{Json, items, array}
use oxide_batch_workloads.Base.Result.{ok}
use oxide_batch_workloads.Registry.{Root, RegistryFile}
use oxide_batch_workloads.Registry.Entry.{Entry}
use oxide_batch_workloads.Registry.Repository.{Registry, validate_repository}
use oxide_batch_workloads.Registry.Sound.{IsSound, solid, names_of}
use oxide_batch_workloads.Registry.Complete.{validate_repository-IsComplete}
use oxide_batch_workloads.Synthesis
use oxide_batch_workloads.Synthesis.{
  parse_entries, parse_loop, parse_entry, parse_named, parse_name, parse_policy, policy_of,
  bad_name, solid_text,
}
use oxide_batch_workloads.Discovery.{text_or_null, entry_json, include_json, discover}

abbrev text_or_empty : Option String → String
text_or_empty none = ""
text_or_empty (some s) = s

-- The entry that the synthesis script keeps.
abbrev pub kept : Entry → Synthesis.Entry
kept e = record {
  name = e.name;
  declared = e.msrv.declared;
  reason = text_or_empty e.msrv.policy_reason;
}

parse_policy-kept :
    (name : String) (declared : Bool) (version reason : Option String)
    → declared ≡ is_some version
    → is_some reason ≡ not declared
    → solid version ≡ true
    → solid reason ≡ true
    → parse_policy name declared (
        ("declared", Json.bool declared)
        ∷ ("version", text_or_null version)
        ∷ ("policy_reason", text_or_null reason)
        ∷ [])
      ≡ ok (record { name = name; declared = declared; reason = text_or_empty reason })
unfolding parse_policy lookup
parse_policy-kept name true (some v) none a b c d = ground arith
parse_policy-kept name false none (some r) a b c d = ground arith
parse_policy-kept name true none r a b c d = absurd (ground arith)
parse_policy-kept name true (some v) (some r) a b c d = absurd (ground arith)
parse_policy-kept name false (some v) r a b c d = absurd (ground arith)
parse_policy-kept name false none none a b c d = absurd (ground arith)

parse_entry-kept :
    (root : Root) (e : Entry) (seen : List String)
    → IsSound root e
    → contains seen e.name ≡ false
    → parse_entry seen (entry_json e) ≡ ok (kept e)
unfolding parse_entry lookup
parse_entry-kept root e seen s new =
    let p =
      parse_policy-kept e.name e.msrv.declared e.msrv.version e.msrv.policy_reason
        s.declared_version s.explained s.solid_version s.solid_reason in
    rw (s.safe_name) (rw new p)

apart-cons :
    (x : String) (seen : List String) (es : List Entry)
    → all (λ (e : Entry). not (contains (x ∷ seen) e.name)) es
      ≡ (not (contains (names_of es) x) && all (λ (e : Entry). not (contains seen e.name)) es)
apart-cons x seen [] = refl
apart-cons x seen (e ∷ es) = ground (arith, apart-cons x seen es, eq_iff x e.name, eq_iff e.name x)

parse_loop-kept :
    (root : Root) (es : List Entry) (seen : List String)
    → All (IsSound root) es
    → distinct (names_of es) ≡ true
    → all (λ (e : Entry). not (contains seen e.name)) es ≡ true
    → parse_loop seen (map entry_json es) ≡ ok (map kept es)
unfolding parse_loop
parse_loop-kept root [] seen a d new = refl
parse_loop-kept root (e ∷ es) seen (s, a) d new =
    rw (parse_entry-kept root e seen s (ground arith)) (
      rw (
        parse_loop-kept root es (e.name ∷ seen) a (ground arith)
          (ground (arith, apart-cons e.name seen es))))

items-array : (js : List Json) → items (array js) ≡ js
items-array [] = refl
items-array (j ∷ js) = rw (items-array js)

none_contained : (es : List Entry) → all (λ (e : Entry). not (contains [] e.name)) es ≡ true
none_contained [] = refl
none_contained (e ∷ es) = none_contained es

All-append_sound :
    (P Q R : Entry → Type 0) (es fs : List Entry)
    → All (λ e. R e × P e) es
    → All (λ e. R e × Q e) fs
    → All R (es ++ fs)
All-append_sound P Q R [] [] a b = tt
All-append_sound P Q R [] (f ∷ fs) a ((r, q), b) = (r, All-append_sound P Q R [] fs tt b)
All-append_sound P Q R (e ∷ es) fs ((r, p), a) b = (r, All-append_sound P Q R es fs a b)

parse_entries-include_json :
    (root : Root) (es : List Entry)
    → es ≢ []
    → All (IsSound root) es
    → distinct (names_of es) ≡ true
    → parse_entries (some (include_json es)) ≡ ok (map kept es)
unfolding parse_entries lookup
parse_entries-include_json root [] some_entry a d = absurd (some_entry refl)
parse_entries-include_json root (e ∷ es) some_entry a d =
    rw (items-array (map entry_json es))
      (parse_loop-kept root (e ∷ es) [] a d (none_contained (e ∷ es)))

append-ne-nil : (es fs : List Entry) → es ≢ [] → es ++ fs ≢ []
append-ne-nil [] fs h = absurd (h refl)
append-ne-nil (e ∷ es) fs h = λ q. cc

-- The discovery output of an accepted registry is accepted by the synthesis script, which reads
-- from it every workload and fixture, in order, with its MSRV policy.
pub parse_entries-discover :
    (root : Root) (file : RegistryFile) (r : Registry)
    → validate_repository root file ≡ ok r
    → parse_entries (some (discover r)) ≡ ok (map kept (r.workloads ++ r.fixtures))
unfolding discover
parse_entries-discover root file r h =
    let (j, d, rs, is_file, is_object, has_rs, c) = validate_repository-IsComplete root file r h in
    parse_entries-include_json root (r.workloads ++ r.fixtures)
      (append-ne-nil r.workloads r.fixtures c.some_workload)
      (All-append_sound _ _ (IsSound root) r.workloads r.fixtures c.workloads_sound
        c.fixtures_sound)
      (rw (map-append) c.names_distinct)
