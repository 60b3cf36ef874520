-- ===== src/Server/MemoryFields.antt =====
-- source/Server.cpp: the fields of the memory log against the lines of /proc/self/status.
use smartmet_server.Server.MemoryStatus.{
  write_fields, read_values, memory_line, one_of, get_lines, entry_text, jemalloc_stats, Mallctl,
  key_value, keep, erase_blanks,
}
use smartmet_server.Text.{
  Bytes, codes, same_bytes, same_bytes_refl, same_bytes-eq, find_char, find_first_not_blank,
  first_index,
}
use smartmet_server.Base.{
  List, arith, none, sym, true, some, refl, [], inr, Bool-cases, inl, Option, ap, ◌++◌, ◌≡◌, ◌∷◌,
  ◌∙◌, if◌then◌else◌, ℕ, ◌==◌,
}
use smartmet_server.Server.PluginLimits.{lookup-assign, if_none, if_none_assoc, value_or-if_none}
use smartmet_server.Limits.{lookup, value_or}
use smartmet_server.Utility.Elements.{trim_left}

abbrev longer_key : ℕ → Option (Bytes × Bytes) → Option (Bytes × Bytes)
longer_key c none = none
longer_key c (some (k, v)) = some (c ∷ k, v)

-- A line up to its first colon, and what follows without leading blanks.
unfoldable pub split_at_colon : Bytes → Option (Bytes × Bytes)
split_at_colon [] = none
split_at_colon (c ∷ s) =
    let rest = split_at_colon s in if c == b':' then some ([], trim_left s) else longer_key c rest

erase_blanks-trim_left : (s : Bytes) → erase_blanks s ≡ trim_left s
unfolding erase_blanks find_first_not_blank first_index trim_left
erase_blanks-trim_left [] = refl
erase_blanks-trim_left (c ∷ s) = ground (arith, erase_blanks-trim_left s)

key_value-split_at_colon : (line : Bytes) → key_value line ≡ split_at_colon line
unfolding key_value find_char first_index split_at_colon
key_value-split_at_colon [] = refl
key_value-split_at_colon (c ∷ s) =
    ground (arith, key_value-split_at_colon s, erase_blanks-trim_left s)

-- The value of the last line with the key.
unfoldable pub last_value : Bytes → List Bytes → Option Bytes
last_value k [] = none
last_value k (line ∷ lines) = if_none (last_value k lines) (elim (split_at_colon line) [
  | none ↦ none
  | some (j, v) ↦ if same_bytes j k then some v else none
])

-- The fields in order, each with its value, or nothing behind the `=`.
unfoldable pub field_values : List Bytes → List Bytes → Bytes
field_values lines [] = []
field_values lines (f ∷ fs) =
    entry_text f (value_or (last_value f lines) []) ++ field_values lines fs

own_value : Bytes → Option (Bytes × Bytes) → Option Bytes
own_value k none = none
own_value k (some (j, v)) = if same_bytes j k then some v else none

keep-lookup :
    (fields : List Bytes) (k : Bytes) (o : Option (Bytes × Bytes)) (m : List (Bytes × Bytes))
    → one_of k fields ≡ true
    → lookup k (keep fields o m) ≡ if_none (own_value k o) (lookup k m)
unfolding own_value
keep-lookup fields k none m h = refl
keep-lookup fields k (some (j, v)) m h = elim (Bool-cases (same_bytes j k)) [
  | inl same ↦ let e = same_bytes-eq j k same in ground (arith, e, same, lookup-assign k j v m)
  | inr other ↦ ground (arith, other, lookup-assign k j v m)
]

read_values-lookup :
    (fields : List Bytes) (k : Bytes) (lines : List Bytes) (m : List (Bytes × Bytes))
    → one_of k fields ≡ true
    → lookup k (read_values fields lines m) ≡ if_none (last_value k lines) (lookup k m)
unfolding read_values last_value own_value
read_values-lookup fields k [] m h = refl
read_values-lookup fields k (line ∷ lines) m h =
    let own = own_value k (split_at_colon line) in
    rw (key_value-split_at_colon line) (
      read_values-lookup fields k lines (keep fields (split_at_colon line) m) h
      ∙ ap (if_none (last_value k lines)) (keep-lookup fields k (split_at_colon line) m h)
      ∙ sym (if_none_assoc (last_value k lines) own (lookup k m)))

abbrev AllWithin : List Bytes → List Bytes → Type 0
AllWithin fields [] = Unit
AllWithin fields (f ∷ fs) = (one_of f fields ≡ true) × AllWithin fields fs

AllWithin-cons :
    (f : Bytes) (fields fs : List Bytes) → AllWithin fields fs → AllWithin (f ∷ fields) fs
unfolding one_of
AllWithin-cons f fields [] h = tt
AllWithin-cons f fields (g ∷ fs) (h, hs) = (ground arith, AllWithin-cons f fields fs hs)

AllWithin-refl : (fields : List Bytes) → AllWithin fields fields
unfolding one_of
AllWithin-refl [] = tt
AllWithin-refl (f ∷ fs) =
    (ground (arith, same_bytes_refl f), AllWithin-cons f fs fs (AllWithin-refl fs))

write_fields-values :
    (fields lines fs : List Bytes)
    → AllWithin fields fs
    → write_fields fs (read_values fields lines []) ≡ field_values lines fs
unfolding write_fields field_values lookup
write_fields-values fields lines [] h = refl
write_fields-values fields lines (f ∷ fs) (h, hs) =
    let last = last_value f lines in
    let value : value_or (lookup f (read_values fields lines [])) [] ≡ value_or last [] =
      ap (λ o. value_or o []) (read_values-lookup fields f lines [] h) ∙ value_or-if_none last [] in
    rw (value, write_fields-values fields lines fs hs) refl

-- The memory log names the configured fields in their order, each with the value of the last line of
-- the status file whose key it is, without leading blanks, and with nothing if there is no such line;
-- then come the statistics of jemalloc.
pub memory_line-fields :
    (jemalloc : Option Mallctl) (status : Bytes) (fields : List Bytes)
    → memory_line jemalloc (some status) fields
      ≡ some (
          codes "Memory:"
          ++ (field_values (get_lines status) fields ++ (jemalloc_stats jemalloc ++ codes "\n")))
unfolding memory_line
memory_line-fields jemalloc status fields =
    rw (write_fields-values fields (get_lines status) fields (AllWithin-refl fields)) refl
