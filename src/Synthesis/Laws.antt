-- ===== src/Synthesis/Laws.antt =====
-- What `parse_entries` guarantees of its entries, and what `synthesize` writes for them.
use oxide_batch_workloads.Base.{
  ◌≡◌, refl, String, Bool, true, false, not, ◌&&◌, ◌||◌, ◌==◌, Option, none, some, List, [], ◌∷◌,
  map, is_empty, contains, distinct, All, select, all, arith, if◌then◌else◌, Bool-cases,
  Option-cases, inl, inr, eq_iff,
}
use oxide_batch_workloads.Base.Dict.{Dict}
use oxide_batch_workloads.Base.Json.{Json, get, as_dict}
use oxide_batch_workloads.Base.Text.{is_blank, has_char}
use oxide_batch_workloads.Base.Result.{ok, err, >>=-eq-ok, ok_inj, is_ok}
use oxide_batch_workloads.Aggregate.{ShardResult}
use oxide_batch_workloads.Aggregate.Load.{include_of, ResultFile, load_results}
use oxide_batch_workloads.Shard.{build_result, not_applicable_dict}
use oxide_batch_workloads.Synthesis.{
  SynthesisError, Entry, solid_text, bad_name, parse_name, parse_policy, policy_of, parse_named,
  parse_entry, parse_loop, parse_entries, synthetic_args, build_not_applicable_result, Written,
  output_path, write_loop, workloads_of, synthesize, synthesize_onto,
}

abbrev pub entry_names : List Entry → List String
entry_names [] = []
entry_names (e ∷ es) = e.name ∷ entry_names es

-- The text is the name of a directory: not empty, no slash in it, and neither "." nor "..".
pub record IsDirectoryName (s : String) : Type 0 where
  pub some_text : (s == "") ≡ false
  pub no_slash : has_char b'/' s ≡ false
  pub not_here : (s == ".") ≡ false
  pub not_parent : (s == "..") ≡ false

-- A name that is a safe directory name, and a reason wherever no MSRV is declared.
pub record IsSound (e : Entry) : Type 0 where
  pub safe : IsDirectoryName e.name
  pub explained : (e.declared || not (is_blank e.reason)) ≡ true

parse_policy-name :
    (name : String) (declared : Bool) (d : Dict Json) {e : Entry}
    → parse_policy name declared d ≡ ok e
    → (e.name ≡ name) × ((e.declared || not (is_blank e.reason)) ≡ true)
unfolding parse_policy solid_text
parse_policy-name name true d h = ground arith
parse_policy-name name false d h = ground arith

bad_name-IsDirectoryName : (s : String) → bad_name s ≡ false → IsDirectoryName s
unfolding bad_name
bad_name-IsDirectoryName s h = record {
  some_text = ground arith;
  no_slash = ground arith;
  not_here = ground arith;
  not_parent = ground arith;
}

parse_name-safe : (j : Json) {s : String} → parse_name j ≡ ok s → IsDirectoryName s
unfolding parse_name
parse_name-safe (Json.str t) {s} h = bad_name-IsDirectoryName s (ground arith)
parse_name-safe j h = absurd (ground arith)

-- What an accepted entry consists of.
pub record Parsed (seen : List String) (raw : Json) (e : Entry) : Type 0 where
  pub dict : Dict Json
  pub msrv : Dict Json
  pub is_dict : as_dict raw ≡ some dict
  pub named : parse_name (get dict "name") ≡ ok e.name
  pub policy : policy_of dict ≡ some (e.declared, msrv)
  pub sound : parse_policy e.name e.declared msrv ≡ ok e
  pub new : contains seen e.name ≡ false

parse_policy-declared :
    (name : String) (declared : Bool) (d : Dict Json) (e : Entry)
    → parse_policy name declared d ≡ ok e
    → (e.name ≡ name) × (e.declared ≡ declared)
unfolding parse_policy
parse_policy-declared name true d e h = ground arith
parse_policy-declared name false d e h = ground arith

parse_named-Parsed :
    (seen : List String) (raw : Json) (e : Entry) (d : Dict Json) (name : String)
    (p : Option (Bool × Dict Json))
    → as_dict raw ≡ some d
    → parse_name (get d "name") ≡ ok name
    → policy_of d ≡ p
    → parse_named seen name p ≡ ok e
    → Parsed seen raw e
unfolding parse_named
parse_named-Parsed seen raw e d name none q n r h = absurd (ground arith)
parse_named-Parsed seen raw e d name (some (declared, msrv)) q n r h =
    let accepted : parse_policy name declared msrv ≡ ok e = ground arith in
    let (same_name, same) = parse_policy-declared name declared msrv e accepted in
    record {
      dict = d;
      msrv = msrv;
      is_dict = q;
      named = rw same_name n;
      policy = rw same r;
      sound = simp (same_name, same) accepted;
      new = rw same_name (ground arith);
    }

pub parse_entry-Parsed :
    (seen : List String) (raw : Json) {e : Entry} → parse_entry seen raw ≡ ok e → Parsed seen raw e
unfolding parse_entry
parse_entry-Parsed seen raw {e} h = elim (Option-cases (as_dict raw)) [
  | inl missing ↦ absurd (ground arith)
  | inr (d, found) ↦
      let (name, n, rest) =
        >>=-eq-ok (parse_name (get d "name")) (λ name. parse_named seen name (policy_of d))
          (rw (found, parse_entry) at h) in
      parse_named-Parsed seen raw e d name (policy_of d) found n refl rest
]

parse_entry-IsSound :
    (seen : List String) (raw : Json) {e : Entry}
    → parse_entry seen raw ≡ ok e
    → IsSound e × (contains seen e.name ≡ false)
parse_entry-IsSound seen raw {e} h =
    let q = parse_entry-Parsed seen raw h in
    (
      record {
        safe = parse_name-safe (get q.dict "name") q.named;
        explained = (parse_policy-name e.name e.declared q.msrv {e = e} q.sound).1;
      },
      q.new,
    )

-- No entry's name is in a list.
abbrev apart : List String → List Entry → Bool
apart seen es = all (λ (e : Entry). not (contains seen e.name)) es

apart-cons :
    (x : String) (seen : List String) (es : List Entry)
    → apart (x ∷ seen) es ≡ (not (contains (entry_names es) x) && apart seen es)
apart-cons x seen [] = refl
apart-cons x seen (e ∷ es) = ground (arith, apart-cons x seen es, eq_iff x e.name, eq_iff e.name x)

parse_loop-IsSound :
    (seen : List String) (raws : List Json) {es : List Entry}
    → parse_loop seen raws ≡ ok es
    → All IsSound es × (distinct (entry_names es) ≡ true) × (apart seen es ≡ true)
unfolding parse_loop
parse_loop-IsSound seen [] h = rw (← (ok_inj h)) (tt, refl, refl)
parse_loop-IsSound seen (raw ∷ raws) h =
    let (e, first, h') = >>=-eq-ok (parse_entry seen raw) _ h in
    let (rest, later, h'') = >>=-eq-ok (parse_loop (e.name ∷ seen) raws) _ h' in
    let (sound, new) = parse_entry-IsSound seen raw first in
    let (sounds, different, away) = parse_loop-IsSound (e.name ∷ seen) raws later in
    rw (← (ok_inj h'')) (
      (sound, sounds),
      ground (arith, apart-cons e.name seen rest),
      ground (arith, apart-cons e.name seen rest),
    )

include-cases :
    (include : List Json) {es : List Entry}
    → (if is_empty include then err SynthesisError.empty_include else parse_loop [] include) ≡ ok es
    → (parse_loop [] include ≡ ok es)
include-cases [] h = absurd (ground arith)
include-cases (raw ∷ raws) h = h

-- Every accepted discovery output has distinct, safe names, and a reason that is not blank for
-- each entry without a declared MSRV.
pub parse_entries-IsSound :
    (matrix : Option Json) {es : List Entry}
    → parse_entries matrix ≡ ok es
    → All IsSound es × (distinct (entry_names es) ≡ true)
unfolding parse_entries
parse_entries-IsSound none h = absurd (ground arith)
parse_entries-IsSound (some matrix) h = elim (Option-cases (include_of matrix)) [
  | inl missing ↦ absurd (ground arith)
  | inr (include, found) ↦
      let r = parse_loop-IsSound [] include (include-cases include (ground arith)) in (r.0, r.1)
]

abbrev pub undeclared : List Entry → List Entry
undeclared es = select (λ (e : Entry). not e.declared) es

-- The file of an entry without a declared MSRV.
abbrev pub synthetic_file : Entry → Written
synthetic_file e = record {
  path = output_path e.name;
  content = not_applicable_dict (synthetic_args e);
}

-- No entry without a declared MSRV has a result already.
abbrev pub no_collision : List String → List Entry → Bool
no_collision existing es = all (λ (e : Entry). e.declared || not (contains existing e.name)) es

build_not_applicable_result_lem :
    (e : Entry)
    → IsSound e
    → e.declared ≡ false
    → build_not_applicable_result e ≡ ok (not_applicable_dict (synthetic_args e))
unfolding build_not_applicable_result build_result
build_not_applicable_result_lem e s u = ground (arith, s.explained)

pub no_collision-cons :
    (x : String) (existing : List String) (es : List Entry)
    → contains (entry_names es) x ≡ false
    → no_collision (x ∷ existing) es ≡ no_collision existing es
no_collision-cons x existing [] h = refl
no_collision-cons x existing (e ∷ es) h =
    ground (arith, no_collision-cons x existing es, eq_iff x e.name, eq_iff e.name x)

pub write_loop_lem :
    (existing : List String) (es : List Entry)
    → All IsSound es
    → distinct (entry_names es) ≡ true
    → no_collision existing es ≡ true
    → write_loop existing es ≡ (map synthetic_file (undeclared es), ok tt)
unfolding write_loop
write_loop_lem existing [] s d free = refl
write_loop_lem existing (e ∷ es) (s, ss) d free = elim (Bool-cases e.declared) [
  | inl declared ↦ ground (arith, write_loop_lem existing es ss)
  | inr not_declared ↦ ground (
    arith,
    write_loop_lem (e.name ∷ existing) es ss,
    no_collision-cons e.name existing es,
    build_not_applicable_result_lem e s not_declared,
  )
]

pub is_ok-write_loop :
    (existing : List String) (es : List Entry)
    → All IsSound es
    → distinct (entry_names es) ≡ true
    → is_ok (write_loop existing es).1 ≡ no_collision existing es
unfolding write_loop
is_ok-write_loop existing [] s d = refl
is_ok-write_loop existing (e ∷ es) (s, ss) d = elim (Bool-cases e.declared) [
  | inl declared ↦ ground (arith, is_ok-write_loop existing es ss)
  | inr not_declared ↦ ground (
    arith,
    is_ok-write_loop (e.name ∷ existing) es ss,
    no_collision-cons e.name existing es,
    build_not_applicable_result_lem e s not_declared,
  )
]

module _ (matrix : Option Json) (files : Option (List ResultFile)) {es : List Entry}
    {existing : List ShardResult} where
  -- From an accepted discovery output and a results directory with no malformed result,
  -- `synthesize` succeeds exactly when no entry without a declared MSRV has a result already.
  pub is_ok-synthesize :
      parse_entries matrix ≡ ok es
      → load_results files "msrv" ≡ ok (existing, [])
      → is_ok (synthesize matrix files).1 ≡ no_collision (workloads_of existing) es
  unfolding synthesize synthesize_onto
  is_ok-synthesize p l =
      let (sound, d) = parse_entries-IsSound matrix p in
      rw (p, synthesize) (rw (l, synthesize) (is_ok-write_loop (workloads_of existing) es sound d))

  -- If discovery is accepted, the results directory holds no malformed result, and no entry
  -- without a declared MSRV has a result already, `synthesize` writes one not-applicable file for
  -- each such entry, in order, and nothing else.
  pub synthesize_lem :
      parse_entries matrix ≡ ok es
      → load_results files "msrv" ≡ ok (existing, [])
      → no_collision (workloads_of existing) es ≡ true
      → synthesize matrix files ≡ (map synthetic_file (undeclared es), ok tt)
  unfolding synthesize synthesize_onto
  synthesize_lem p l free =
      let (sound, d) = parse_entries-IsSound matrix p in
      rw (p, synthesize)
        (rw (l, synthesize) (write_loop_lem (workloads_of existing) es sound d free))
