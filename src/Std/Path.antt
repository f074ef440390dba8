-- ===== src/Std/Path.antt =====
-- Package path: `Clean`.
use mathlib.Core.List.{reverse}
use mylittleproxy.Base.{
  ◌≡◌, refl, Bytes, bytes, Bool, true, false, ◌||◌, List, [], ◌∷◌, nat_eq, is_empty, if◌then◌else◌,
  ◌==◌,
}
use mylittleproxy.Std.Text.{split, join}

abbrev is_rooted : Bytes → Bool
is_rooted [] = false
is_rooted (c ∷ _) = nat_eq c b'/'

-- One `..`: it takes the last element away, and stays where a relative path has none to take.
abbrev up : Bool → List Bytes → List Bytes
up true [] = []
up false [] = bytes ".." ∷ []
up rooted (top ∷ stack) = if top == bytes ".." then bytes ".." ∷ top ∷ stack else stack

-- The elements so far, the last one first.
abbrev resolve : Bool → List Bytes → Bytes → List Bytes
resolve rooted stack part =
    if is_empty part || part == bytes "."
    then stack
    else if part == bytes ".."
    then up rooted stack
    else part ∷ stack

resolve_all : Bool → List Bytes → List Bytes → List Bytes
resolve_all rooted stack [] = reverse stack
resolve_all rooted stack (part ∷ parts) = resolve_all rooted (resolve rooted stack part) parts

abbrev print : Bool → List Bytes → Bytes
print true parts = b'/' ∷ join parts (bytes "/")
print false [] = bytes "."
print false (p ∷ ps) = join (p ∷ ps) (bytes "/")

unfoldable pub clean : Bytes → Bytes
unfolding resolve_all split join ◌==◌
clean p = print (is_rooted p) (resolve_all (is_rooted p) [] (split b'/' p))

clean_tests :
    (clean (bytes "/_controlPath") ≡ bytes "/_controlPath")
    × (clean (bytes "//a/./b/../_c/") ≡ bytes "/a/_c")
    × (clean (bytes "") ≡ bytes ".")
    × (clean (bytes "a/../..") ≡ bytes "..")
    × (clean (bytes "/..") ≡ bytes "/")
unfolding clean
clean_tests = (refl, refl, refl, refl, refl)
