-- ===== src/Planner/Catalog.antt =====
-- `_server_arguments`, `PatchCatalogEntry.from_mapping`, `PatchCatalog.load` from the parsed document
-- on, and `PatchCatalog.get` of planner.py.
use euboulia.Prelude.{
  String, Bool, true, false, ◌&&◌, ◌||◌, Option, none, some, List, [], ◌∷◌, str_eq, if◌then◌else◌,
  map,
}
use euboulia.Prelude.Dict.{Dict, insert, has_key}
use euboulia.Planner.{
  not_a_file, not_a_scalar, word, nul_byte, not_finite, quantity, bad_version, boolean_switch,
  duplicate_change, entry_not_a_mapping, no_entries, none_left, not_texts, set_and_removed, boolean,
  duplicate_id, duplicate_remove, end, item, mapping, no_change, not_a_list, not_a_mapping,
  not_an_option, not_text, null, switch, unknown_field, ArgumentValue, Items, PatchCatalogEntry,
  entry, number, other_key, sequence, text, ◌>>=◌, Entries, Library, PatchCatalogError, among, Yaml,
  Result, ok, err,
}

-- len(set(values)) != len(values)
unfoldable pub has_duplicates : List String → Bool
has_duplicates [] = false
has_duplicates (x ∷ xs) = among x xs || has_duplicates xs

-- `if not test: raise`
abbrev pub guard : {A : Type 0} → Bool → PatchCatalogError → Result A → Result A
guard true e next = next
guard false e next = err e

abbrev path_of : Option (String × String) → Option String
path_of none = none
path_of (some p) = some p.0

abbrev digest_of : Option (String × String) → Option String
digest_of none = none
digest_of (some p) = some p.1

module _ {Float : Type 0} where
  -- all(isinstance(key, str) for key in raw)
  pub text_keys : Entries Float → Bool
  text_keys end = true
  text_keys (entry k v rest) = text_keys rest
  text_keys (other_key v rest) = false

  -- raw.get(key), on keys that are distinct
  pub value_of : String → Entries Float → Option (Yaml Float)
  value_of key end = none
  value_of key (other_key v rest) = value_of key rest
  value_of key (entry k v rest) = if str_eq k key then some v else value_of key rest

  -- set(raw) - allowed is empty
  pub only_fields : List String → Entries Float → Bool
  only_fields allowed end = true
  only_fields allowed (entry k v rest) = among k allowed && only_fields allowed rest
  only_fields allowed (other_key v rest) = false

  -- PatchCatalog.get, with none for the `KeyError`
  unfoldable pub get : List (PatchCatalogEntry Float) → String → Option (PatchCatalogEntry Float)
  get [] own = none
  get (e ∷ es) own = if str_eq e.entry_id own then some e else get es own

module _ {Float : Type 0} (L : Library Float) where
  -- _text
  pub text_of : Option (Yaml Float) → Result String
  text_of (some (text s)) = if str_eq (L.strip s) "" then err not_text else ok (L.strip s)
  text_of _ = err not_text

  texts_of : Items Float → Result (List String)
  unfolding text_of
  texts_of none_left = ok []
  texts_of (item v rest) = do first ← text_of (some v); others ← texts_of rest; ok (first ∷ others)

  string_tuple : Option (Yaml Float) → Result (List String)
  unfolding texts_of
  string_tuple (some (sequence (item v rest))) = texts_of (item v rest)
  string_tuple _ = err not_texts

  unfoldable pub server_argument : Option (Yaml Float) → Result String
  unfolding text_of
  server_argument value = do
    name ← text_of value
    if L.is_option name then ok name else err not_an_option

  pub server_argument_value : Yaml Float → Result (ArgumentValue Float)
  server_argument_value null = ok switch
  server_argument_value (boolean b) = err boolean_switch
  server_argument_value (number x) = if L.is_finite x then ok (quantity x) else err not_finite
  server_argument_value (text s) = if L.has_nul s then err nul_byte else ok (word s)
  server_argument_value (sequence vs) = err not_a_scalar
  server_argument_value (mapping es) = err not_a_scalar

  -- The loop over `raw_set.items()`, whose keys are texts.
  unfoldable pub selected_arguments :
      Entries Float → Dict (ArgumentValue Float) → Result (Dict (ArgumentValue Float))
  unfolding server_argument server_argument_value
  selected_arguments end selected = ok selected
  selected_arguments (other_key v rest) selected = err not_a_mapping
  selected_arguments (entry raw v rest) selected = do
    name ← server_argument (some (text raw))
    value ← server_argument_value v
    selected_arguments rest (insert name value selected)

  unfoldable pub removed_arguments : Items Float → Result (List String)
  unfolding server_argument
  removed_arguments none_left = ok []
  removed_arguments (item v rest) = do
    name ← server_argument (some v)
    others ← removed_arguments rest
    ok (name ∷ others)

  -- raw.get("set", {})
  unfoldable pub read_set : Option (Yaml Float) → Result (Dict (ArgumentValue Float))
  unfolding text_keys selected_arguments
  read_set none = ok []
  read_set (some (mapping es)) = guard (text_keys es) not_a_mapping (selected_arguments es [])
  read_set (some _) = err not_a_mapping

  -- raw.get("remove", [])
  unfoldable pub read_remove : Option (Yaml Float) → Result (List String)
  unfolding removed_arguments
  read_remove none = ok []
  read_remove (some (sequence vs)) = removed_arguments vs
  read_remove (some _) = err not_a_list

  -- set(selected) & set(removed) is not empty
  unfoldable pub overlaps : Dict (ArgumentValue Float) → List String → Bool
  overlaps selected [] = false
  overlaps selected (r ∷ rs) = has_key selected r || overlaps selected rs

  unfoldable pub consistent :
      Dict (ArgumentValue Float) → List String → Result (Dict (ArgumentValue Float) × List String)
  unfolding has_duplicates overlaps
  consistent selected removed =
      if has_duplicates removed
      then err duplicate_remove
      else if overlaps selected removed
      then err set_and_removed
      else ok (selected, removed)

  unfoldable pub server_arguments :
      Option (Yaml Float) → Result (Dict (ArgumentValue Float) × List String)
  unfolding read_set read_remove consistent text_keys value_of only_fields
  server_arguments none = ok ([], [])
  server_arguments (some null) = ok ([], [])
  server_arguments (some (mapping es)) = guard (text_keys es) not_a_mapping (
      guard (only_fields ("set" ∷ "remove" ∷ []) es) unknown_field (do
        selected ← read_set (value_of "set" es)
        removed ← read_remove (value_of "remove" es)
        consistent selected removed))
  server_arguments (some _) = err not_a_mapping

  -- The path and the digest of the patch, if the entry names one.
  digested : String → Result (Option (String × String))
  digested path = if L.is_file path then ok (some (path, L.file_digest path)) else err not_a_file

  read_patch : Option (Yaml Float) → Result (Option (String × String))
  unfolding text_of digested
  read_patch none = ok none
  read_patch (some null) = ok none
  read_patch (some v) = text_of (some v) >>= λ raw. digested (L.resolve raw)

  optional_text : Option (Yaml Float) → Result (Option String)
  unfolding text_of
  optional_text none = ok none
  optional_text (some null) = ok none
  optional_text (some v) = text_of (some v) >>= λ s. ok (some s)

  -- value.get("risk", "medium")
  risk_of : Option (Yaml Float) → Result String
  unfolding text_of
  risk_of none = text_of (some (text "medium"))
  risk_of (some v) = text_of (some v)

  unfoldable pub change_of :
      Option (String × String) → Dict (ArgumentValue Float) → List String → Result String
  change_of none [] [] = err no_change
  change_of (some (path, digest)) [] [] = ok digest
  change_of patch selected removed = ok (L.change_digest (digest_of patch) removed selected)

  unfoldable pub from_mapping : Entries Float → Result (PatchCatalogEntry Float)
  unfolding only_fields value_of read_patch server_arguments change_of optional_text text_of
      string_tuple risk_of
  from_mapping es =
      guard
        (only_fields
          ("id" ∷ "title" ∷ "rationale" ∷ "triggers" ∷ "patch" ∷ "server_args" ∷ "predicted_metric"
            ∷ "risk" ∷ [])
          es)
        unknown_field
        (do
          patch ← read_patch (value_of "patch" es)
          (selected, removed) ← server_arguments (value_of "server_args" es)
          change ← change_of patch selected removed
          predicted ← optional_text (value_of "predicted_metric" es)
          own ← text_of (value_of "id" es)
          title ← text_of (value_of "title" es)
          rationale ← text_of (value_of "rationale" es)
          triggers ← string_tuple (value_of "triggers" es)
          risk ← risk_of (value_of "risk" es)
          ok (record {
            entry_id = own;
            title = title;
            rationale = rationale;
            triggers = triggers;
            patch_path = path_of patch;
            patch_sha256 = digest_of patch;
            server_args_set = selected;
            server_args_remove = removed;
            change_sha256 = change;
            predicted_metric = predicted;
            risk = risk;
          }))

  read_entry : Yaml Float → Result (PatchCatalogEntry Float)
  unfolding from_mapping text_keys
  read_entry (mapping es) = guard (text_keys es) entry_not_a_mapping (from_mapping es)
  read_entry _ = err entry_not_a_mapping

  pub read_entries : Items Float → Result (List (PatchCatalogEntry Float))
  unfolding read_entry
  read_entries none_left = ok []
  read_entries (item v rest) = do
    first ← read_entry v
    others ← read_entries rest
    ok (first ∷ others)

  pub raw_entries : Option (Yaml Float) → Result (Items Float)
  raw_entries (some (sequence (item v rest))) = ok (item v rest)
  raw_entries _ = err no_entries

  -- raw.get("schema_version") == 1, which True is too
  pub is_version : Option (Yaml Float) → Bool
  is_version (some (number x)) = L.is_one x
  is_version (some (boolean b)) = b
  is_version _ = false

  unfoldable pub unique_entries :
      List (PatchCatalogEntry Float) → Result (List (PatchCatalogEntry Float))
  unfolding has_duplicates
  unique_entries entries =
      if has_duplicates (map (λ e. e.entry_id) entries)
      then err duplicate_id
      else if has_duplicates (map (λ e. e.change_sha256) entries)
      then err duplicate_change
      else ok entries

  -- PatchCatalog.load
  unfoldable pub load : Yaml Float → Result (List (PatchCatalogEntry Float))
  unfolding only_fields value_of is_version raw_entries read_entries unique_entries
  load (mapping es) = guard (only_fields ("schema_version" ∷ "entries" ∷ []) es) unknown_field (
      guard (is_version (value_of "schema_version" es)) bad_version (do
        raw ← raw_entries (value_of "entries" es)
        entries ← read_entries raw
        unique_entries entries))
  load _ = err not_a_mapping
