-- ===== src/Clients/Roots.antt =====
-- The roots of a client (client/roots.go). The goroutine that owns them handles one request after the
-- other. `around` is what the standard library gives: the scheme that `url.Parse` finds (`none` for an
-- error or no scheme), `filepath.IsAbs`, `filepath.Abs` (`none` for its error) and `filepath.ToSlash`.
use mathlib.Core.Option.{some-injective}
use gomcp.Prelude.{
  ℕ, ◌+◌, ◌≡◌, refl, sym, ap, ◌∙◌, Bool, true, false, not, ◌&&◌, ◌||◌, inl, inr, Bool-cases, arith,
  Option, none, some, List, [], ◌∷◌, ◌++◌, String, string_key, ◌==◌, ==_iff, if◌then◌else◌,
}
use Prim.Native.String.{◌++◌ as join}
use text.Mathlib.Text.{starts_with}
use text.Mathlib.TextPositions.{starts_with-append}

pub record Root : Type 0 where
  pub uri : String
  pub name : String

pub record PathFunctions : Type 0 where
  pub scheme_of : String → Option String
  pub is_abs : String → Bool
  pub abs : String → Option String
  pub to_slash : String → String

-- The roots, the client's capability of announcing changes, whether there is a transport, and how many
-- announcements were given to it.
pub record RootsManager : Type 0 where
  pub roots : List Root
  pub list_changed : Bool
  pub has_transport : Bool
  pub announced : ℕ

pub data RootsRequest : Type 0 where
  add : String → String → RootsRequest
  remove : String → RootsRequest
  get : RootsRequest

-- `done` of an operation without a result.
pub data RootsResponse : Type 0 where
  roots_copy : List Root → RootsResponse
  done : RootsResponse
  not_file_uri : RootsResponse
  already_exists : RootsResponse
  not_found : RootsResponse

abbrev with_prefix : PathFunctions → Option String → Option String
with_prefix around none = none
with_prefix around (some path) = some (join "file://" (around.to_slash path))

abbrev is_other_scheme : Option String → Bool
is_other_scheme none = false
is_other_scheme (some scheme) = not (scheme == "" || scheme == "file")

unfoldable pub ensure_file_uri : PathFunctions → String → Option String
ensure_file_uri around path =
    if starts_with path "file://"
    then some path
    else if is_other_scheme (around.scheme_of path)
    then none
    else with_prefix around (if around.is_abs path then some path else around.abs path)

unfoldable pub has_root : String → List Root → Bool
has_root uri [] = false
has_root uri (root ∷ roots) = if root.uri == uri then true else has_root uri roots

unfoldable pub without_root : String → List Root → List Root
without_root uri [] = []
without_root uri (root ∷ roots) = if root.uri == uri then roots else root ∷ without_root uri roots

unfoldable pub send_roots_list_changed_notification : RootsManager → RootsManager
send_roots_list_changed_notification rm =
    if rm.list_changed && rm.has_transport then record rm { announced = rm.announced + 1 } else rm

abbrev added_root : String → String → RootsManager → RootsManager
added_root uri name rm = send_roots_list_changed_notification (record rm {
  roots = rm.roots ++ (record { uri = uri; name = name } ∷ []);
  list_changed = true;
})

abbrev add_uri : String → RootsManager → Option String → RootsManager × RootsResponse
add_uri name rm none = (rm, not_file_uri)
add_uri name rm (some uri) =
    if has_root uri rm.roots then (rm, already_exists) else (added_root uri name rm, done)

abbrev remove_uri : RootsManager → Option String → RootsManager × RootsResponse
remove_uri rm none = (rm, not_file_uri)
remove_uri rm (some uri) =
    if has_root uri rm.roots
    then (
      send_roots_list_changed_notification (record rm { roots = without_root uri rm.roots }),
      done,
    )
    else (rm, not_found)

unfoldable pub handle_roots_request :
    PathFunctions → RootsRequest → RootsManager → RootsManager × RootsResponse
handle_roots_request around (add uri name) rm = add_uri name rm (ensure_file_uri around uri)
handle_roots_request around (remove uri) rm = remove_uri rm (ensure_file_uri around uri)
handle_roots_request around get rm = (rm, roots_copy rm.roots)

-- The requests that the goroutine handled.
unfoldable pub run_roots : PathFunctions → List RootsRequest → RootsManager → RootsManager
run_roots around [] rm = rm
run_roots around (request ∷ requests) rm =
    run_roots around requests (handle_roots_request around request rm).0

-- Each root is a file URI, and none is there twice.
abbrev pub AreRoots : List Root → Type 0
AreRoots [] = Unit
AreRoots (root ∷ roots) =
    (starts_with root.uri "file://" ≡ true) × (has_root root.uri roots ≡ false) × AreRoots roots

with_prefix-file :
    (around : PathFunctions) (o : Option String) (uri : String)
    → with_prefix around o ≡ some uri
    → starts_with uri "file://" ≡ true
with_prefix-file around none uri e = cc
with_prefix-file around (some path) uri e =
    ap (λ u. starts_with u "file://")
      (sym (some-injective (join "file://" (around.to_slash path)) uri e))
    ∙ starts_with-append "file://" (around.to_slash path)

ensure_file_uri-file :
    (around : PathFunctions) (path uri : String)
    → ensure_file_uri around path ≡ some uri
    → starts_with uri "file://" ≡ true
unfolding ensure_file_uri
ensure_file_uri-file around path uri e = elim (Bool-cases (starts_with path "file://")) [
  | inl h ↦ ap (λ u. starts_with u "file://") (sym (some-injective path uri (rw h at e))) ∙ h
  | inr h ↦ elim (Bool-cases (is_other_scheme (around.scheme_of path))) [
    | inl g ↦ let f : none ≡ some uri = rw (h, g) at e in cc
    | inr g ↦
        with_prefix-file around (if around.is_abs path then some path else around.abs path) uri
          (rw (h, g) at e)
  ]
]

has_root-append :
    (uri : String) (root : Root) (roots : List Root)
    → has_root uri (roots ++ (root ∷ [])) ≡ (has_root uri roots || root.uri == uri)
unfolding has_root
has_root-append uri root [] = ground arith
has_root-append uri root (r ∷ roots) = ground (arith, has_root-append uri root roots)

append-AreRoots :
    (root : Root) (roots : List Root)
    → AreRoots roots
    → starts_with root.uri "file://" ≡ true
    → has_root root.uri roots ≡ false
    → AreRoots (roots ++ (root ∷ []))
unfolding has_root
append-AreRoots root [] are h g = (h, refl, tt)
append-AreRoots root (r ∷ roots) (f, fresh, are) h g =
    let ih = append-AreRoots root roots are h in
    let a = has_root-append r.uri root roots in
    let b = ==_iff r.uri root.uri in
    let c = ==_iff root.uri r.uri in (f, ground arith, ih (ground arith))

has_root-without :
    (x uri : String) (roots : List Root)
    → has_root x roots ≡ false
    → has_root x (without_root uri roots) ≡ false
unfolding has_root without_root
has_root-without x uri [] h = refl
has_root-without x uri (r ∷ roots) h = ground (arith, has_root-without x uri roots)

without_root-AreRoots :
    (uri : String) (roots : List Root) → AreRoots roots → AreRoots (without_root uri roots)
unfolding has_root without_root
without_root-AreRoots uri [] are = tt
without_root-AreRoots uri (r ∷ roots) (f, fresh, are) = elim (Bool-cases (r.uri == uri)) [
  | inl h ↦ rw h are
  | inr h ↦ rw h (f, has_root-without r.uri uri roots fresh, without_root-AreRoots uri roots are)
]

announcing-roots : (rm : RootsManager) → (send_roots_list_changed_notification rm).roots ≡ rm.roots
unfolding send_roots_list_changed_notification
announcing-roots rm = elim (Bool-cases (rm.list_changed && rm.has_transport)) [
  | inl h ↦ rw h refl
  | inr h ↦ rw h refl
]

AreRoots-announcing :
    (rm : RootsManager)
    → AreRoots rm.roots
    → AreRoots (send_roots_list_changed_notification rm).roots
AreRoots-announcing rm are = rw (announcing-roots rm) are

add_uri-AreRoots :
    (around : PathFunctions) (path name : String) (rm : RootsManager) (o : Option String)
    → ensure_file_uri around path ≡ o
    → AreRoots rm.roots
    → AreRoots (add_uri name rm o).0.roots
add_uri-AreRoots around path name rm none e are = are
add_uri-AreRoots around path name rm (some uri) e are = elim (Bool-cases (has_root uri rm.roots)) [
  | inl h ↦ rw h are
  | inr h ↦ rw h (
      AreRoots-announcing
        (record rm {
          roots = rm.roots ++ (record { uri = uri; name = name } ∷ []);
          list_changed = true;
        })
        (append-AreRoots (record { uri = uri; name = name }) rm.roots are
          (ensure_file_uri-file around path uri e) h))
]

remove_uri-AreRoots :
    (rm : RootsManager) (o : Option String) → AreRoots rm.roots → AreRoots (remove_uri rm o).0.roots
remove_uri-AreRoots rm none are = are
remove_uri-AreRoots rm (some uri) are = elim (Bool-cases (has_root uri rm.roots)) [
  | inl h ↦ rw h (
      AreRoots-announcing (record rm { roots = without_root uri rm.roots })
        (without_root-AreRoots uri rm.roots are))
  | inr h ↦ rw h are
]

handle_roots_request-AreRoots :
    (around : PathFunctions) (request : RootsRequest) (rm : RootsManager)
    → AreRoots rm.roots
    → AreRoots (handle_roots_request around request rm).0.roots
unfolding handle_roots_request
handle_roots_request-AreRoots around (add uri name) rm are =
    add_uri-AreRoots around uri name rm (ensure_file_uri around uri) refl are
handle_roots_request-AreRoots around (remove uri) rm are =
    remove_uri-AreRoots rm (ensure_file_uri around uri) are
handle_roots_request-AreRoots around get rm are = are

-- Whatever requests the goroutine of the roots handles, every root is a file URI and no URI is there
-- twice, if it was so before.
pub run_roots-AreRoots :
    (around : PathFunctions) (requests : List RootsRequest) (rm : RootsManager)
    → AreRoots rm.roots
    → AreRoots (run_roots around requests rm).roots
unfolding run_roots
run_roots-AreRoots around [] rm are = are
run_roots-AreRoots around (request ∷ requests) rm are =
    run_roots-AreRoots around requests (handle_roots_request around request rm).0
      (handle_roots_request-AreRoots around request rm are)
