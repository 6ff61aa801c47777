-- ===== src/Base/Text.antt =====
-- Identifiers and tags are native texts, compared whole. `null` and `undefined` are `none`.
use Prim.Native.String.{String}
use mathlib.Core.Bool.{Bool, true, false, not}
use mathlib.Core.Option.{Option, none, some}
use text.Mathlib.Text.{◌==◌ as str_eq}

-- `a === b` on texts.
abbrev pub same : String → String → Bool
same a b = str_eq a b

-- `a === b` where `a` may be null and `b` is a text.
abbrev pub holds_text : Option String → String → Bool
holds_text none b = false
holds_text (some a) b = same a b

-- The truth value of a text that may be null: the empty text is false as well.
abbrev pub truthy : Option String → Bool
truthy none = false
truthy (some a) = not (same a "")

-- `a ?? b`
abbrev pub or_else {ℓ} : {A : Type ℓ} → Option A → A → A
or_else none b = b
or_else (some a) b = a

abbrev pub is_some {ℓ} : {A : Type ℓ} → Option A → Bool
is_some none = false
is_some (some a) = true
