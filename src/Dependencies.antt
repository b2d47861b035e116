-- ===== src/Dependencies.antt =====
-- src/quantumguard/dependencies.py: the dependencies that the manifests of a repository declare.
pub mod Found
use pqcensus.Base.{
  none, nat_beq, ends_with, non_empty, not, ◌||◌, split_words, Bool, true, false, ◌&&◌, some, List,
  [], ◌∷◌, ◌++◌, Text, text, lower, strip, any, occurs, starts_with, is_space, ◌==◌, nat_eq,
  list_eq, pair_eq, if◌then◌else◌,
}
use pqcensus.Base.Dict.Indexed.{index_by}
use pqcensus.Base.Sort.{sorted, nat_ord, list_ord, pair_ord}
use pqcensus.Model.Result.{Dependency}

abbrev signals : List Text
signals =
    text "cryptography"
    ∷ text "pycryptodome"
    ∷ text "pycryptodomex"
    ∷ text "pyjwt"
    ∷ text "openssl"
    ∷ text "libressl"
    ∷ text "boringssl"
    ∷ text "rustls"
    ∷ text "ring"
    ∷ text "webcrypto"
    ∷ text "node-forge"
    ∷ text "jsonwebtoken"
    ∷ text "bouncycastle"
    ∷ text "tink"
    ∷ text "oqs"
    ∷ text "liboqs"
    ∷ []

unfoldable pub crypto_dependency : Text → Bool
unfolding any occurs lower
crypto_dependency name = any (λ signal. occurs signal (lower name)) signals

-- `removeprefix`
unfoldable pub remove_prefix : Text → Text → Text
remove_prefix [] t = t
remove_prefix (p ∷ ps) [] = []
remove_prefix (p ∷ ps) (c ∷ t) = if starts_with (p ∷ ps) (c ∷ t) then remove_prefix ps t else c ∷ t

-- `Dependency(parts[0], parts[1], rel, "go")`, where there are two parts.
unfoldable pub go_requirement : Text → Text → List Dependency
unfolding split_words
go_requirement rel stripped = elim (split_words stripped) [
  | [] ↦ []
  | name ∷ rest ↦ elim rest [
    | [] ↦ []
    | version ∷ others ↦
        record {
          name = name;
          version = some version;
          manifest = rel;
          ecosystem = text "go";
          direct = true;
        }
        ∷ []
  ]
]

-- The loop of `_go_mod`; the first argument is `in_block`.
unfoldable pub go_lines : Bool → Text → List Text → List Dependency
unfolding go_requirement remove_prefix starts_with strip
go_lines in_block rel [] = []
go_lines in_block rel (line ∷ lines) =
    let stripped = strip line in
    let inside = go_lines true rel lines in
    let outside = go_lines false rel lines in
    if stripped == text "require ("
    then inside
    else if in_block && (stripped == text ")")
    then outside
    else if starts_with (text "require ") stripped
    then go_requirement rel (strip (remove_prefix (text "require ") stripped))
      ++ (if in_block then inside else outside)
    else if in_block
    then go_requirement rel stripped ++ inside
    else outside

-- `stripped.split("/", 1)[0]`
unfoldable pub before_slash : Text → Text
before_slash [] = []
before_slash (c ∷ t) = if nat_beq c b'/' then [] else c ∷ before_slash t

-- `Dependency(name, None, rel, "cpp")`, where there is a name.
unfoldable pub conan_requirement : Text → Text → List Dependency
conan_requirement rel [] = []
conan_requirement rel (c ∷ name) =
    record {
      name = c ∷ name;
      version = none;
      manifest = rel;
      ecosystem = text "cpp";
      direct = true;
    }
    ∷ []

-- The loop of `_cpp_text` over the lines of a conanfile.txt; the first argument is `in_requires`.
unfoldable pub conan_lines : Bool → Text → List Text → List Dependency
unfolding conan_requirement before_slash starts_with ends_with strip lower
conan_lines in_requires rel [] = []
conan_lines in_requires rel (line ∷ lines) =
    let stripped = strip line in
    let entered = conan_lines (lower stripped == text "[requires]") rel lines in
    let rest = conan_lines in_requires rel lines in
    if starts_with (text "[") stripped && ends_with (text "]") stripped
    then entered
    else if not in_requires
        || not (non_empty stripped)
        || starts_with (text "#") stripped
        || starts_with (text ";") stripped
    then rest
    else conan_requirement rel (strip (before_slash stripped)) ++ rest

-- The key of the dict `found`.
unfoldable pub dependency_key : Dependency → Text × (Text × Text)
unfolding lower
dependency_key d = (d.ecosystem, (lower d.name, d.manifest))

-- `found` and the list that is returned, of the dependencies of the manifests in order.
unfoldable pub found_dependencies : List Dependency → List Dependency
unfolding dependency_key index_by sorted
found_dependencies items = sorted dependency_key (index_by dependency_key items)
