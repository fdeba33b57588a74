-- ===== src/Planner/Disjoint.antt =====
-- What a catalog that loads promises, and what its server arguments do.
use euboulia.Prelude.{
  subst, All, ap, ◌≡◌, refl, arith, true, false, Memᴰ, eq_iff, none, some, List, map,
}
use euboulia.Prelude.Dict.{Dict, has_key, lookup}
use euboulia.Planner.{
  null, sequence, number, [], text, String, boolean, err, ArgumentValue, Option, PatchCatalogError,
  among, mapping, ◌>>=◌, ◌∷◌, Bool, Dict, PatchCatalogEntry, Result, Yaml, Library, ok,
}
use euboulia.Planner.{unknown_field, not_a_mapping, bad_version}
use euboulia.Planner.Options.{
  Distinct, has_duplicates-Distinct, ok_inj, bound-ok, removed_arguments-Options,
  selected_arguments-options,
}
use euboulia.Planner.Catalog.{
  read_set, read_remove, value_of, only_fields, text_keys, raw_entries, read_entries, is_version,
  guard, consistent, get, has_duplicates, overlaps, server_arguments, unique_entries, load,
}

module _ {Float : Type 0} (L : Library Float) where
  guarded :
      {A : Type 0} (test : Bool) (x : PatchCatalogError) (next : Result A) (a : A)
      → guard test x next ≡ ok a
      → next ≡ ok a
  guarded true x next a e = e
  guarded false x next a e = ground arith

  -- The names that are set or removed are options; those that are removed are not set, and no two of
  -- them are the same.
  pub record Separate (selected : Dict (ArgumentValue Float)) (removed : List String) : Type 0 where
    pub set_options : All (λ e. L.is_option e.0 ≡ true) selected
    pub removed_options : All (λ r. L.is_option r ≡ true) removed
    pub once : Distinct removed
    pub not_set : All (λ r. lookup r selected ≡ none) removed

  no_key :
      (selected : Dict (ArgumentValue Float)) (r : String)
      → has_key selected r ≡ false
      → lookup r selected ≡ none
  unfolding has_key lookup
  no_key [] r h = refl
  no_key ((own, value) ∷ rest) r h = ground (arith, no_key rest r)

  overlaps-none :
      (selected : Dict (ArgumentValue Float)) (removed : List String)
      → overlaps L selected removed ≡ false
      → All (λ r. lookup r selected ≡ none) removed
  unfolding overlaps
  overlaps-none selected [] h = tt
  overlaps-none selected (r ∷ rs) h =
      (no_key selected r (ground arith), overlaps-none selected rs (ground arith))

  read_set-options :
      (value : Option (Yaml Float)) {selected : Dict (ArgumentValue Float)}
      → read_set L value ≡ ok selected
      → All (λ e. L.is_option e.0 ≡ true) selected
  unfolding read_set
  read_set-options none h = subst (All (λ e. L.is_option e.0 ≡ true)) (ok_inj h) tt
  read_set-options (some (mapping es)) h =
      selected_arguments-options L es [] tt (guarded (text_keys es) not_a_mapping _ _ h)
  read_set-options (some null) h = cc
  read_set-options (some (boolean b)) h = cc
  read_set-options (some (text s)) h = cc
  read_set-options (some (number x)) h = cc
  read_set-options (some (sequence vs)) h = cc

  read_remove-options :
      (value : Option (Yaml Float)) {removed : List String}
      → read_remove L value ≡ ok removed
      → All (λ r. L.is_option r ≡ true) removed
  unfolding read_remove
  read_remove-options none h = subst (All (λ r. L.is_option r ≡ true)) (ok_inj h) tt
  read_remove-options (some (sequence vs)) h = removed_arguments-Options L vs h
  read_remove-options (some (mapping es)) h = cc
  read_remove-options (some null) h = cc
  read_remove-options (some (boolean b)) h = cc
  read_remove-options (some (text s)) h = cc
  read_remove-options (some (number x)) h = cc

  read-Separate :
      (set remove : Option (Yaml Float)) {selected : Dict (ArgumentValue Float)}
      {removed : List String}
      → (read_set L set >>= λ s. read_remove L remove >>= λ r. consistent L s r)
        ≡ ok (selected, removed)
      → Separate selected removed
  unfolding consistent
  read-Separate set remove {selected} {removed} e =
      let (s, one, e1) = bound-ok (read_set L set) _ e in
      let (r, two, e2) = bound-ok (read_remove L remove) _ e1 in
      let (unique, apart, same) = accepted s r e2 in
      subst (λ p. Separate p.0 p.1) same
        (record {
          set_options = read_set-options set one;
          removed_options = read_remove-options remove two;
          once = has_duplicates-Distinct r unique;
          not_set = overlaps-none s r apart;
        })
    where
      accepted :
          (s : Dict (ArgumentValue Float)) (r : List String)
          → consistent L s r ≡ ok (selected, removed)
          → (has_duplicates r ≡ false)
            × (overlaps L s r ≡ false)
            × (◌≡◌ {A = Dict (ArgumentValue Float) × List String} (s, r) (selected, removed))
      accepted s r h = ground arith

  nothing-Separate :
      (selected : Dict (ArgumentValue Float)) (removed : List String)
      → (◌≡◌ {A = Result (Dict (ArgumentValue Float) × List String)}
          (ok ([], []))
          (ok (selected, removed)))
      → Separate selected removed
  nothing-Separate selected removed e =
      subst (λ p. Separate p.0 p.1) (ok_inj e)
        (record { set_options = tt; removed_options = tt; once = tt; not_set = tt })

  -- In server arguments that are read without an error, every name that is set or removed is an option,
  -- no option is both set and removed, and no two of the removed ones are the same.
  pub server_arguments-Separate :
      (value : Option (Yaml Float)) (selected : Dict (ArgumentValue Float)) (removed : List String)
      → server_arguments L value ≡ ok (selected, removed)
      → Separate selected removed
  unfolding server_arguments
  server_arguments-Separate none selected removed e = nothing-Separate selected removed e
  server_arguments-Separate (some null) selected removed e = nothing-Separate selected removed e
  server_arguments-Separate (some (mapping es)) selected removed e =
      read-Separate (value_of "set" es) (value_of "remove" es) (
        guarded (only_fields ("set" ∷ "remove" ∷ []) es) unknown_field _ _
          (guarded (text_keys es) not_a_mapping _ _ e))
  server_arguments-Separate (some (boolean b)) selected removed e = ground arith
  server_arguments-Separate (some (text s)) selected removed e = ground arith
  server_arguments-Separate (some (number x)) selected removed e = ground arith
  server_arguments-Separate (some (sequence vs)) selected removed e = ground arith

  unique_ids :
      (first es : List (PatchCatalogEntry Float))
      → unique_entries L first ≡ ok es
      → (has_duplicates (map (λ e. e.entry_id) es) ≡ false)
        × (has_duplicates (map (λ e. e.change_sha256) es) ≡ false)
  unfolding unique_entries
  unique_ids first es e = (ground arith, ground arith)

  bound_unique :
      {A : Type 0} (raw : Result A) (read : A → Result (List (PatchCatalogEntry Float)))
      (es : List (PatchCatalogEntry Float))
      → (raw >>= λ r. read r >>= λ entries. unique_entries L entries) ≡ ok es
      → (first : List (PatchCatalogEntry Float)) × (unique_entries L first ≡ ok es)
  bound_unique (ok r) read es e = read_unique (read r) es e
    where
      read_unique :
          (entries : Result (List (PatchCatalogEntry Float))) (es : List (PatchCatalogEntry Float))
          → (entries >>= λ xs. unique_entries L xs) ≡ ok es
          → (first : List (PatchCatalogEntry Float)) × (unique_entries L first ≡ ok es)
      read_unique (ok xs) es e = (xs, e)
      read_unique (err x) es e = absurd (ground arith)
  bound_unique (err x) read es e = absurd (ground arith)

  among_ids :
      (e : PatchCatalogEntry Float) (es : List (PatchCatalogEntry Float))
      → Memᴰ e es
      → among e.entry_id (map (λ e. e.entry_id) es) ≡ true
  among_ids e [] m = elim m [ ]
  among_ids e (x ∷ es) (Memᴰ.head h) =
      ground (arith, eq_iff x.entry_id e.entry_id, ap (λ e. e.entry_id) h)
  among_ids e (x ∷ es) (Memᴰ.tail m) = ground (arith, among_ids e es m)

  get-listed :
      (es : List (PatchCatalogEntry Float)) (e : PatchCatalogEntry Float)
      → has_duplicates (map (λ e. e.entry_id) es) ≡ false
      → Memᴰ e es
      → get es e.entry_id ≡ some e
  unfolding get has_duplicates
  get-listed [] e h m = elim m [ ]
  get-listed (x ∷ es) e h (Memᴰ.head k) =
      ground (arith, eq_iff x.entry_id e.entry_id, ap (λ e. e.entry_id) k, k)
  get-listed (x ∷ es) e h (Memᴰ.tail m) =
      ground
        (arith, eq_iff x.entry_id e.entry_id, among_ids e es m, get-listed es e (ground arith) m)

  -- In a catalog that loads, `get` finds every entry under its id, and no two entries have the same
  -- digest of their change.
  pub get-load :
      (document : Yaml Float) (es : List (PatchCatalogEntry Float))
      → load L document ≡ ok es
      → ((e : PatchCatalogEntry Float) → Memᴰ e es → get es e.entry_id ≡ some e)
        × (has_duplicates (map (λ e. e.change_sha256) es) ≡ false)
  unfolding load
  get-load (mapping fields) es e =
      let (first, is) =
        bound_unique (raw_entries L (value_of "entries" fields)) (read_entries L) es (
          guarded (is_version L (value_of "schema_version" fields)) bad_version _ _ (
            guarded (only_fields ("schema_version" ∷ "entries" ∷ []) fields) unknown_field _ _
              e)) in
      let (ids, changes) = unique_ids first es is in (λ x m. get-listed es x ids m, changes)
  get-load null es e = absurd (ground arith)
  get-load (boolean b) es e = absurd (ground arith)
  get-load (text s) es e = absurd (ground arith)
  get-load (number x) es e = absurd (ground arith)
  get-load (sequence vs) es e = absurd (ground arith)
