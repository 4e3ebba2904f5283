-- ===== src/RuntimeTarget.antt =====
-- src/internal.hpp: `ValidateRuntimeTarget`, the check of the address of the host's socket.
pub mod Components
use xgc2_adapter_runtime_cli.Base.{
  ℕ, Bool, true, false, not, ◌&&◌, ◌||◌, Bytes, text, same, is_empty, [], ◌∷◌, ◌++◌, Option, none,
  some, ◌==◌, if◌then◌else◌,
}

-- What follows a prefix.
unfoldable pub strip_prefix : Bytes → Bytes → Option Bytes
strip_prefix [] value = some value
strip_prefix (p ∷ ps) [] = none
strip_prefix (p ∷ ps) (c ∷ cs) = if c == p then strip_prefix ps cs else none

unfoldable pub is_bad_component : Bytes → Bool
unfolding same text
is_bad_component component =
    is_empty component || same component (text ".") || same component (text "..")

-- The loop over the components of a path: `ok` while none is bad, with `component` read so far; 47 is '/'.
unfoldable pub check_components : Bool → Bytes → Bytes → Bool
unfolding is_bad_component
check_components ok component [] = ok && not (is_bad_component component)
check_components ok component (c ∷ cs) =
    check_components (if c == 47 then ok && not (is_bad_component component) else ok)
      (if c == 47 then [] else component ++ c ∷ []) cs

unfoldable pub ends_with_slash : Bytes → Bool
ends_with_slash [] = false
ends_with_slash (c ∷ []) = c == 47
ends_with_slash (c ∷ d ∷ cs) = ends_with_slash (d ∷ cs)

unfoldable pub check_socket_path : Bytes → Bool
unfolding ends_with_slash check_components
check_socket_path [] = false
check_socket_path (c ∷ []) = false
check_socket_path (c ∷ d ∷ cs) =
    (c == 47) && not (ends_with_slash (d ∷ cs)) && check_components true [] (d ∷ cs)

-- `some` is the failure.
unfoldable pub validate_runtime_target : Bytes → Option Bytes
unfolding strip_prefix check_socket_path text
validate_runtime_target runtime_target =
    let failure = text "unix target must contain a canonical absolute socket path" in
    elim (strip_prefix (text "unix://") runtime_target) [
      | some path ↦ if check_socket_path path then none else some failure
      | none ↦ elim (strip_prefix (text "unix:") runtime_target) [
        | some path ↦ if check_socket_path path then none else some failure
        | none ↦ some (text "runtime_target must use the unix scheme")
      ]
    ]
