-- ===== src/Db/Inbox.antt =====
-- db/inbox.py: what leaves a payload before it is stored. Texts are compared as lists of code points.
pub mod Privacy
pub mod Prepare
pub mod Batch
pub mod Insert
pub mod Taken
pub mod Stored
pub mod Replay
pub mod Tests
use android_apm_server.Prelude.{
  ℕ, String, Bool, true, false, not, ◌&&◌, ◌||◌, Option, none, some, List, [], ◌∷◌, ◌==◌, codes,
  is_empty, if◌then◌else◌,
}
use android_apm_server.Json.{Json, Items, Fields}

abbrev pub starts_with : List ℕ → List ℕ → Bool
starts_with [] text = true
starts_with (c ∷ part) [] = false
starts_with (c ∷ part) (d ∷ text) = c == d && starts_with part text

-- `part in text`
unfoldable pub occurs : List ℕ → List ℕ → Bool
occurs part [] = starts_with part []
occurs part (c ∷ text) = starts_with part (c ∷ text) || occurs part text

-- `isinstance(item, str) and plaintext in item`
unfoldable pub holds_text : List ℕ → Json → Bool
holds_text part (Json.str text) = occurs part (codes text)
holds_text part _ = false

-- The entries and elements that name the text go, and the rest is cleaned.
unfoldable mutual
  pub without_plaintext : List ℕ → Json → Json
  without_plaintext part (Json.obj fs) = Json.obj (remove_from_fields part fs)
  without_plaintext part (Json.arr items) = Json.arr (remove_from_items part items)
  without_plaintext part Json.null = Json.null
  without_plaintext part (Json.bool b) = Json.bool b
  without_plaintext part (Json.nat n) = Json.nat n
  without_plaintext part (Json.negative n) = Json.negative n
  without_plaintext part (Json.real text) = Json.real text
  without_plaintext part (Json.str text) = Json.str text

  pub remove_from_fields : List ℕ → Fields → Fields
  remove_from_fields part Fields.end = Fields.end
  remove_from_fields part (Fields.field key item rest) =
      let cleaned = Fields.field key (without_plaintext part item) (remove_from_fields part rest) in
      let without = remove_from_fields part rest in
      if occurs part (codes key) || holds_text part item then without else cleaned

  pub remove_from_items : List ℕ → Items → Items
  remove_from_items part Items.nil = Items.nil
  remove_from_items part (Items.cons item rest) =
      let cleaned = Items.cons (without_plaintext part item) (remove_from_items part rest) in
      let without = remove_from_items part rest in if holds_text part item then without else cleaned

unfoldable pub remove_known_installation_plaintext : Json → Option String → Json
unfolding without_plaintext
remove_known_installation_plaintext value none = value
remove_known_installation_plaintext value (some plaintext) =
    if is_empty plaintext then value else without_plaintext (codes plaintext) value
