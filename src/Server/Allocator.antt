-- ===== src/Server/Allocator.antt =====
-- source/Server.cpp: getMallctl, which looks for jemalloc once, and the lines of the memory log that
-- depend on it. The dynamic loader is a parameter, and may answer otherwise at another time.
use smartmet_server.Text.{Bytes, codes}
use smartmet_server.Server.MemoryStatus.{memory_line, Mallctl}
use smartmet_server.Base.{
  Option, List, ◌∷◌, [], ap, map, Bool, some, refl, none, ◌≡◌, if◌then◌else◌,
}

pub record Loader : Type 0 where
  -- whether a library is resident: dlopen with RTLD_NOLOAD
  pub is_resident : Bytes → Bool
  -- dlsym in that library
  pub symbol : Bytes → Bytes → Option Mallctl

abbrev pub jemalloc_soname : Bytes
jemalloc_soname = codes "libjemalloc.so.2"

unfoldable pub find_mallctl : Loader → Option Mallctl
find_mallctl l =
    if l.is_resident jemalloc_soname then l.symbol jemalloc_soname (codes "mallctl") else none

-- The static variable keeps what the first call finds; `none` before that call.
unfoldable pub get_mallctl :
    Loader → Option (Option Mallctl) → Option Mallctl × Option (Option Mallctl)
unfolding find_mallctl
get_mallctl l (some found) = (found, some found)
get_mallctl l none = (find_mallctl l, some (find_mallctl l))

-- The lines at a sequence of expiries, each with the loader and /proc/self/status of its time. Where the
-- file cannot be opened mallctl is not looked for.
unfoldable pub memory_lines :
    List Bytes → List (Loader × Option Bytes) → Option (Option Mallctl) → List (Option Bytes)
unfolding get_mallctl memory_line
memory_lines fields [] kept = []
memory_lines fields ((l, none) ∷ times) kept = none ∷ memory_lines fields times kept
memory_lines fields ((l, some status) ∷ times) kept =
    let (found, kept') = get_mallctl l kept in
    memory_line found (some status) fields ∷ memory_lines fields times kept'

-- The loader that decides: that of the first line that is written.
abbrev pub first_loader : List (Loader × Option Bytes) → Option Loader
first_loader [] = none
first_loader ((l, none) ∷ times) = first_loader times
first_loader ((l, some status) ∷ times) = some l

abbrev pub mallctl_of : Option Loader → Option Mallctl
mallctl_of none = none
mallctl_of (some l) = find_mallctl l

abbrev pub statuses : List (Loader × Option Bytes) → List (Option Bytes)
statuses = map (λ t. t.1)

memory_lines-kept :
    (fields : List Bytes) (times : List (Loader × Option Bytes)) (found : Option Mallctl)
    → memory_lines fields times (some found)
      ≡ map (λ s. memory_line found s fields) (statuses times)
unfolding memory_lines
memory_lines-kept fields [] found = refl
memory_lines-kept fields ((l, none) ∷ times) found =
    ap (◌∷◌ none) (memory_lines-kept fields times found)
memory_lines-kept fields ((l, some status) ∷ times) found =
    ap (◌∷◌ (memory_line found (some status) fields)) (memory_lines-kept fields times found)

-- All lines of the log agree on jemalloc: whatever the loader answers later, each line has the
-- statistics of the mallctl that was found for the first line that was written, or none has any.
pub memory_lines-first :
    (fields : List Bytes) (times : List (Loader × Option Bytes))
    → memory_lines fields times none
      ≡ map (λ s. memory_line (mallctl_of (first_loader times)) s fields) (statuses times)
unfolding memory_lines
memory_lines-first fields [] = refl
memory_lines-first fields ((l, none) ∷ times) = ap (◌∷◌ none) (memory_lines-first fields times)
memory_lines-first fields ((l, some status) ∷ times) =
    ap (◌∷◌ (memory_line (find_mallctl l) (some status) fields))
      (memory_lines-kept fields times (find_mallctl l))
