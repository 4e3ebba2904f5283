-- ===== src/RuntimeTarget/Components.antt =====
-- src/internal.hpp: the check of a socket path, against the list of its components.
use xgc2_adapter_runtime_cli.Base.{
  ℕ, ◌≡◌, Bool, true, false, not, ◌&&◌, Bytes, is_empty, all, List, [], ◌∷◌, ◌++◌, ◌==◌,
  if◌then◌else◌,
}
use xgc2_adapter_runtime_cli.RuntimeTarget.{is_bad_component}

-- The path of these components, each after a slash.
unfoldable pub absolute : List Bytes → Bytes
absolute [] = []
absolute (p ∷ ps) = 47 ∷ p ++ absolute ps

abbrev pub has_no_slash : Bytes → Bool
has_no_slash p = all (λ c. not (c == 47)) p

abbrev pub all_good : List Bytes → Bool
all_good ps = all (λ p. not (is_bad_component p)) ps

-- A byte in front of the first component.
extend : ℕ → List Bytes → List Bytes
extend c [] = (c ∷ []) ∷ []
extend c (p ∷ ps) = (c ∷ p) ∷ ps

-- The pieces of a text between its slashes.
unfoldable pub split_slashes : Bytes → List Bytes
unfolding extend
split_slashes [] = [] ∷ []
split_slashes (c ∷ cs) = let rest = split_slashes cs in if c == 47 then [] ∷ rest else extend c rest

-- A path that begins with a slash, of pieces that are not empty, a dot or two dots.
unfoldable pub is_socket_path : Bytes → Bool
unfolding split_slashes all
is_socket_path [] = false
is_socket_path (c ∷ cs) = (c == 47) && all_good (split_slashes cs)

-- Pieces without a slash that make up the text after the first slash.
record ArePieces (cs : Bytes) (ps : List Bytes) : Type 0 where
  whole : absolute ps ≡ 47 ∷ cs
  plain : all has_no_slash ps ≡ true
  some_piece : is_empty ps ≡ false

after_slash : Bytes → Bytes
after_slash [] = []
after_slash (c ∷ cs) = cs
