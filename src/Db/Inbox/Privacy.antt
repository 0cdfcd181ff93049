-- ===== src/Db/Inbox/Privacy.antt =====
-- `_remove_known_installation_plaintext` of db/inbox.py on keys and texts.
pub mod Payload
pub mod Prepared
use android_apm_server.Prelude.{
  ℕ, ◌≡◌, refl, String, Bool, false, ◌||◌, some, List, codes, is_empty, arith, Bool-cases, inl, inr,
}
use android_apm_server.Json.{Json, Items, Fields}
use android_apm_server.Db.Inbox.{
  occurs, holds_text, without_plaintext, remove_from_fields, remove_from_items,
  remove_known_installation_plaintext,
}

-- No key, at any depth, and no text in a map or a list contains the part.
abbrev mutual
  pub IsClean : List ℕ → Json → Type 0
  IsClean part (Json.obj fs) = AreCleanFields part fs
  IsClean part (Json.arr items) = AreCleanItems part items
  IsClean part _ = Unit

  pub AreCleanFields : List ℕ → Fields → Type 0
  AreCleanFields part Fields.end = Unit
  AreCleanFields part (Fields.field key item rest) =
      (occurs part (codes key) ≡ false)
      × (holds_text part item ≡ false)
      × IsClean part item
      × AreCleanFields part rest

  pub AreCleanItems : List ℕ → Items → Type 0
  AreCleanItems part Items.nil = Unit
  AreCleanItems part (Items.cons item rest) =
      (holds_text part item ≡ false) × IsClean part item × AreCleanItems part rest

holds_text-without :
    (part : List ℕ) (item : Json)
    → holds_text part (without_plaintext part item) ≡ holds_text part item
unfolding holds_text without_plaintext
holds_text-without part (Json.obj fs) = refl
holds_text-without part (Json.arr items) = refl
holds_text-without part Json.null = refl
holds_text-without part (Json.bool b) = refl
holds_text-without part (Json.nat n) = refl
holds_text-without part (Json.negative n) = refl
holds_text-without part (Json.real text) = refl
holds_text-without part (Json.str text) = refl

neither : (a b : Bool) → (a || b) ≡ false → (a ≡ false) × (b ≡ false)
neither a b h = ground arith

mutual
  unfolding without_plaintext remove_from_fields remove_from_items

  without-IsClean : (part : List ℕ) (value : Json) → IsClean part (without_plaintext part value)
  without-IsClean part (Json.obj fs) = fields-AreClean part fs
  without-IsClean part (Json.arr items) = items-AreClean part items
  without-IsClean part Json.null = tt
  without-IsClean part (Json.bool b) = tt
  without-IsClean part (Json.nat n) = tt
  without-IsClean part (Json.negative n) = tt
  without-IsClean part (Json.real text) = tt
  without-IsClean part (Json.str text) = tt

  fields-AreClean : (part : List ℕ) (fs : Fields) → AreCleanFields part (remove_from_fields part fs)
  fields-AreClean part Fields.end = tt
  fields-AreClean part (Fields.field key item rest) =
      let rest' = fields-AreClean part rest in
      let item' = without-IsClean part item in
      elim (Bool-cases (occurs part (codes key) || holds_text part item)) [
        | inl e ↦ rw e rest'
        | inr e ↦
            let (no_key, no_text) = neither _ _ e in
            rw e (no_key, rw (holds_text-without part item) no_text, item', rest')
      ]

  items-AreClean :
      (part : List ℕ) (items : Items) → AreCleanItems part (remove_from_items part items)
  items-AreClean part Items.nil = tt
  items-AreClean part (Items.cons item rest) =
      let rest' = items-AreClean part rest in
      let item' = without-IsClean part item in
      elim (Bool-cases (holds_text part item)) [
        | inl e ↦ rw e rest'
        | inr e ↦ rw e (rw (holds_text-without part item) e, item', rest')
      ]

-- Where the identifier is not empty, no key of the cleaned payload, at any depth, and no text in it, as
-- a value of a map or an element of a list, contains the identifier.
pub remove_known_installation_plaintext-IsClean :
    (value : Json) (plaintext : String)
    → is_empty plaintext ≡ false
    → IsClean (codes plaintext) (remove_known_installation_plaintext value (some plaintext))
unfolding remove_known_installation_plaintext
remove_known_installation_plaintext-IsClean value plaintext h =
    rw h (without-IsClean (codes plaintext) value)
