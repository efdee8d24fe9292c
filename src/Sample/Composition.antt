-- ===== src/Sample/Composition.antt =====
-- The check of dependencies in test/sample_application/orchestration/composition_root.cpp.
pub mod Kept
pub mod Described
pub mod Missing
pub mod Root
use minicomps.Prelude.{
  ℕ, Bool, true, false, not, List, [], ◌∷◌, ◌++◌, map, keep, any, ◌==◌, if◌then◌else◌, Cmd, pure,
  ◌>>=◌,
}
use minicomps.Component.{Direction, exports, imports, DependencyType, interface, DependencyInfo}
use minicomps.World.{World}
use minicomps.Base.Lifecycle.{describe_dependencies}

-- `dependency.type == INTERFACE && dependency.direction == ...`
abbrev pub same_direction : Direction → Direction → Bool
same_direction exports exports = true
same_direction imports imports = true
same_direction d e = false

abbrev pub is_interface : DependencyType → Bool
is_interface interface = true
is_interface t = false

-- The messages of the dependencies on interfaces in one direction.
unfoldable pub interfaces_of : Direction → List DependencyInfo → List ℕ
interfaces_of d [] = []
interfaces_of d (info ∷ infos) =
    let rest = interfaces_of d infos in
    if is_interface info.type
    then (if same_direction info.direction d then info.msg_info ∷ rest else rest)
    else rest

-- The set of exported interfaces is a list, of which only the membership is asked.
unfoldable pub exported_interfaces : List ℕ → Cmd World (List ℕ)
exported_interfaces [] = pure []
exported_interfaces (c ∷ cs) = describe_dependencies c >>= λ infos.
    (exported_interfaces cs >>= λ more. pure (interfaces_of exports infos ++ more))

-- The interfaces that are not exported, with the component that refers to them.
abbrev pub unresolved : List ℕ → ℕ → List ℕ → List (ℕ × ℕ)
unresolved exported c ms = map (λ m. (c, m)) (keep (λ m. not (any (λ e. e == m) exported)) ms)

unfoldable pub missing_of : List ℕ → List ℕ → Cmd World (List (ℕ × ℕ))
missing_of exported [] = pure []
missing_of exported (c ∷ cs) = describe_dependencies c >>= λ infos.
    (missing_of exported cs >>= λ more.
    pure (unresolved exported c (interfaces_of imports infos) ++ more))

-- `components_` is the list of components.
unfoldable pub get_missing_dependencies : List ℕ → Cmd World (List (ℕ × ℕ))
get_missing_dependencies components =
    exported_interfaces components >>= λ exported. missing_of exported components

abbrev pub has_none : {A : Type 0} → List A → Bool
has_none [] = true
has_none (x ∷ xs) = false

-- Its output is left out.
unfoldable pub verify_dependencies : List ℕ → Cmd World Bool
verify_dependencies components =
    get_missing_dependencies components >>= λ missing. pure (has_none missing)
