-- ===== src/Server/MemoryStatus.antt =====
-- source/Server.cpp: readAndLogMemoryUsage and appendJemallocStats. mallctl of jemalloc is a parameter,
-- and so is the percentage that snprintf prints from a double.
use smartmet_server.Base.{
  List, Bool, ℕ, Option, drop, leb, none, false, some, ltb, take, [], ◌∷◌, ◌&&◌, ◌++◌, ◌||◌, ◌+◌,
  ◌==◌, if◌then◌else◌,
}
use smartmet_server.Text.{Bytes, find_char, find_first_not_blank, same_bytes, codes, to_string}
use smartmet_server.Limits.{lookup, value_or}
use smartmet_server.Server.Configuration.{assign}

-- `std::getline` in a loop: nothing behind the last newline is no line.
unfoldable pub get_lines : Bytes → List Bytes
get_lines [] = []
get_lines (c ∷ s) =
    let rest = get_lines s in
    if c == 10 then [] ∷ rest else elim rest [ [] ↦ (c ∷ []) ∷ [] | l ∷ ls ↦ (c ∷ l) ∷ ls ]

-- `s.erase(0, s.find_first_not_of(" \t"))`
unfoldable pub erase_blanks : Bytes → Bytes
unfolding find_first_not_blank
erase_blanks s = elim (find_first_not_blank s 0) [ none ↦ [] | some i ↦ drop i s ]

-- The key before the first colon of a line, and the value behind it.
unfoldable pub key_value : Bytes → Option (Bytes × Bytes)
unfolding find_char
key_value line = elim (find_char line b':' 0) [
  | none ↦ none
  | some i ↦ some (take i line, erase_blanks (drop (i + 1) line))
]

unfoldable pub one_of : Bytes → List Bytes → Bool
one_of key [] = false
one_of key (f ∷ fs) = same_bytes key f || one_of key fs

abbrev pub keep : List Bytes → Option (Bytes × Bytes) → List (Bytes × Bytes) → List (Bytes × Bytes)
keep fields none values = values
keep fields (some (k, v)) values = if one_of k fields then assign k v values else values

unfoldable pub read_values : List Bytes → List Bytes → List (Bytes × Bytes) → List (Bytes × Bytes)
read_values fields [] values = values
read_values fields (line ∷ lines) values =
    read_values fields lines (keep fields (key_value line) values)

abbrev pub entry_text : Bytes → Bytes → Bytes
entry_text field value = codes " " ++ (field ++ (codes "=" ++ value))

unfoldable pub write_fields : List Bytes → List (Bytes × Bytes) → Bytes
write_fields [] values = []
write_fields (f ∷ fs) values =
    entry_text f (value_or (lookup f values) []) ++ write_fields fs values

pub record Mallctl : Type 0 where
  -- whether the epoch could be advanced
  pub advance_epoch : Bool
  pub stat : Bytes → Option ℕ
  -- "%.1f%%" of 100 * (active - allocated) / active
  pub fragmentation : ℕ → ℕ → Bytes

abbrev pub stat_or_zero : Mallctl → Bytes → ℕ
stat_or_zero m name = value_or (m.stat name) 0

abbrev pub fragmentation_text : Mallctl → ℕ → ℕ → Bytes
fragmentation_text m allocated active =
    if ltb 0 active && leb allocated active
    then entry_text (codes "jemalloc.fragmentation") (m.fragmentation allocated active)
    else []

abbrev pub stats_text : Mallctl → ℕ → Bytes
stats_text m allocated =
    let active = stat_or_zero m (codes "stats.active") in
    entry_text (codes "jemalloc.allocated") (to_string allocated)
    ++ (entry_text (codes "jemalloc.active") (to_string active)
        ++ (entry_text (codes "jemalloc.resident")
              (to_string (stat_or_zero m (codes "stats.resident")))
            ++ (entry_text (codes "jemalloc.mapped")
                  (to_string (stat_or_zero m (codes "stats.mapped")))
                ++ (entry_text (codes "jemalloc.retained")
                      (to_string (stat_or_zero m (codes "stats.retained")))
                    ++ fragmentation_text m allocated active))))

-- The statistics, if jemalloc is the allocator.
unfoldable pub jemalloc_stats : Option Mallctl → Bytes
jemalloc_stats none = []
jemalloc_stats (some m) =
    if m.advance_epoch
    then elim (m.stat (codes "stats.allocated")) [ none ↦ [] | some n ↦ stats_text m n ]
    else []

-- The line of the log; nothing is written if /proc/self/status cannot be opened.
unfoldable pub memory_line : Option Mallctl → Option Bytes → List Bytes → Option Bytes
unfolding get_lines read_values write_fields jemalloc_stats
memory_line jemalloc none fields = none
memory_line jemalloc (some status) fields =
    let values = read_values fields (get_lines status) [] in
    some
      (codes "Memory:" ++ (write_fields fields values ++ (jemalloc_stats jemalloc ++ codes "\n")))
