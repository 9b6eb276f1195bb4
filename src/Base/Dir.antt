-- ===== src/Base/Dir.antt =====
-- A directory of files under distinct names: read, write in place of what was there, remove.
use mathlib.Core.Path.{◌≡◌, refl}
use mathlib.Core.Bool.{Bool}
use mathlib.Core.List.{List, [], ◌∷◌}
use mathlib.Core.Option.{Option, none, some}
use native.Mathlib.Omega.{arith}
use Prim.Native.String.{String}
use text.Mathlib.Text.{◌==◌ as str_eq}
use text.Mathlib.TextEquality.{eq_iff}
use kazenai_core.Base.Tests.{if◌then◌else◌, is_some}

abbrev pub Dir {ℓ} : Type ℓ → Type ℓ
Dir A = List (String × A)

module _ {ℓ} {A : Type ℓ} where
  unfoldable pub read : String → Dir A → Option A
  read name [] = none
  read name ((n, a) ∷ d) = if str_eq n name then some a else read name d

  -- `os.replace(tmp, path)`: the file appears whole.
  unfoldable pub write : String → A → Dir A → Dir A
  write name a [] = (name, a) ∷ []
  write name a ((n, b) ∷ d) =
      let rest = write name a d in if str_eq n name then (name, a) ∷ d else (n, b) ∷ rest

  -- `os.remove(path)`: every entry of the name, of which there is one at most.
  unfoldable pub delete : String → Dir A → Dir A
  delete name [] = []
  delete name ((n, a) ∷ d) =
      let rest = delete name d in if str_eq n name then rest else (n, a) ∷ rest

  -- `os.path.exists(path)`.
  abbrev pub exists : String → Dir A → Bool
  exists name d = is_some (read name d)

  pub read-write :
      (name q : String) (a : A) (d : Dir A)
      → read q (write name a d) ≡ (if str_eq name q then some a else read q d)
  unfolding read write
  read-write name q a [] = refl
  read-write name q a ((n, b) ∷ d) =
      ground (arith, eq_iff name q, eq_iff n name, eq_iff n q, read-write name q a d)

  pub read-delete :
      (name q : String) (d : Dir A)
      → read q (delete name d) ≡ (if str_eq name q then none else read q d)
  unfolding read delete
  read-delete name q [] = ground arith
  read-delete name q ((n, b) ∷ d) =
      ground (arith, eq_iff name q, eq_iff n name, eq_iff n q, read-delete name q d)
