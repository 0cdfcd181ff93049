-- ===== src/Db/Inbox/Privacy/Payload.antt =====
-- The payload of `_prepare_event` of db/inbox.py, and the native frames that are written back to it.
use android_apm_server.Prelude.{
  ℕ, ◌≡◌, refl, String, false, Option, none, some, List, codes, Bool-cases, Option-cases, inl, inr,
  str_eq, eq_iff, subst,
}
use android_apm_server.Json.{Json, Items, Fields, get, fields_of}
use android_apm_server.Domain.{OccurrenceContext, dump_frame, dump_frames, dump_number}
use android_apm_server.Db.Models.{NativeFrame}
use android_apm_server.Db.Inbox.{occurs, holds_text}
use android_apm_server.Db.Inbox.Privacy.{IsClean, AreCleanFields, AreCleanItems}
use android_apm_server.Db.Inbox.Prepare.{
  put, put_value, with_frames, validate_frame, validate_frames, items_of, safe_frames, safe_payload,
  valid_frame, text_value, number_value,
}

-- The value of a key in a cleaned map: there, or clean.
IsCleanAt : List ℕ → String → Option Json → Type 0
IsCleanAt part key none = Unit
IsCleanAt part key (some value) =
    (occurs part (codes key) ≡ false) × (holds_text part value ≡ false) × IsClean part value

get-IsCleanAt :
    (part : List ℕ) (key : String) (fs : Fields)
    → AreCleanFields part fs
    → IsCleanAt part key (get key fs)
unfolding IsCleanAt get
get-IsCleanAt part key Fields.end h = tt
get-IsCleanAt part key (Fields.field k value rest) h = elim (Bool-cases (str_eq k key)) [
  | inl e ↦ rw e (subst (λ k. occurs part (codes k) ≡ false) ((eq_iff k key).0 e) h.0, h.1, h.2)
  | inr e ↦ rw e (get-IsCleanAt part key rest h.3)
]

put-AreClean :
    (part : List ℕ) (key : String) (value : Json) (fs : Fields)
    → IsCleanAt part key (some value)
    → AreCleanFields part fs
    → AreCleanFields part (put key value fs)
unfolding IsCleanAt put
put-AreClean part key value Fields.end v h = (v.0, v.1, v.2, tt)
put-AreClean part key value (Fields.field k old rest) v h = elim (Bool-cases (str_eq k key)) [
  | inl e ↦ rw e (h.0, v.1, v.2, h.3)
  | inr e ↦ rw e (h.0, h.1, h.2, put-AreClean part key value rest v h.3)
]

text_value-clean :
    (part : List ℕ) (key : String) (value : Option Json) (text : String)
    → text_value value ≡ some text
    → IsCleanAt part key value
    → IsCleanAt part key (some (Json.str text))
unfolding IsCleanAt holds_text
text_value-clean part key none text h v = absurd (cc)
text_value-clean part key (some (Json.str t)) text h v =
    subst (λ t. IsCleanAt part key (some (Json.str t))) (cc h) v
text_value-clean part key (some (Json.obj fs)) text h v = absurd (cc)
text_value-clean part key (some (Json.arr fs)) text h v = absurd (cc)
text_value-clean part key (some Json.null) text h v = absurd (cc)
text_value-clean part key (some (Json.bool b)) text h v = absurd (cc)
text_value-clean part key (some (Json.nat n)) text h v = absurd (cc)
text_value-clean part key (some (Json.negative n)) text h v = absurd (cc)
text_value-clean part key (some (Json.real n)) text h v = absurd (cc)

number_value-clean :
    (part : List ℕ) (key : String) (value : Option Json) (n : ℕ)
    → number_value value ≡ some n
    → IsCleanAt part key value
    → IsCleanAt part key (some (Json.nat n))
unfolding IsCleanAt holds_text
number_value-clean part key none n h v = absurd (cc)
number_value-clean part key (some (Json.nat a)) n h v = (v.0, refl, tt)
number_value-clean part key (some (Json.obj fs)) n h v = absurd (cc)
number_value-clean part key (some (Json.arr fs)) n h v = absurd (cc)
number_value-clean part key (some Json.null) n h v = absurd (cc)
number_value-clean part key (some (Json.bool b)) n h v = absurd (cc)
number_value-clean part key (some (Json.str a)) n h v = absurd (cc)
number_value-clean part key (some (Json.negative a)) n h v = absurd (cc)
number_value-clean part key (some (Json.real a)) n h v = absurd (cc)

dump_number-clean :
    (part : List ℕ) (key : String) (bias : Option ℕ)
    → occurs part (codes key) ≡ false
    → IsCleanAt part key (some (dump_number bias))
unfolding IsCleanAt holds_text
dump_number-clean part key none h = (h, refl, tt)
dump_number-clean part key (some n) h = (h, refl, tt)

valid_frame-parts :
    (a b c : Option String) (d bias : Option ℕ) (frame : NativeFrame)
    → valid_frame a b c d bias ≡ some frame
    → (a ≡ some frame.abi)
      × (b ≡ some frame.module_build_id)
      × (c ≡ some frame.module_name)
      × (d ≡ some frame.module_relative_pc)
valid_frame-parts none b c d bias frame h = absurd (cc)
valid_frame-parts (some a) none c d bias frame h = absurd (cc)
valid_frame-parts (some a) (some b) none d bias frame h = absurd (cc)
valid_frame-parts (some a) (some b) (some c) none bias frame h = absurd (cc)
valid_frame-parts (some a) (some b) (some c) (some d) bias frame h = (cc h, cc h, cc h, cc h)

dump_frame-IsClean :
    (part : List ℕ) (frame : NativeFrame) (fs : Fields)
    → occurs part (codes "load_bias") ≡ false
    → AreCleanFields part fs
    → validate_frame (Json.obj fs) ≡ some frame
    → IsClean part (dump_frame frame)
unfolding dump_frame validate_frame IsCleanAt
dump_frame-IsClean part frame fs bias_key clean h =
    let (abi, build_id, name, pc) = valid_frame-parts _ _ _ _ _ frame h in
    let abi' = text_value-clean part "abi" _ frame.abi abi (get-IsCleanAt part "abi" fs clean) in
    let build_id' =
      text_value-clean part "module_build_id" _ frame.module_build_id build_id
        (get-IsCleanAt part "module_build_id" fs clean) in
    let name' =
      text_value-clean part "module_name" _ frame.module_name name
        (get-IsCleanAt part "module_name" fs clean) in
    let pc' =
      number_value-clean part "module_relative_pc" _ frame.module_relative_pc pc
        (get-IsCleanAt part "module_relative_pc" fs clean) in
    let bias' = dump_number-clean part "load_bias" frame.load_bias bias_key in
    (
      abi'.0,
      abi'.1,
      tt,
      (
        build_id'.0,
        build_id'.1,
        tt,
        (name'.0, name'.1, tt, (pc'.0, pc'.1, tt, (bias'.0, bias'.1, bias'.2, tt))),
      ),
    )

validate_frame-object :
    (part : List ℕ) (item : Json) (frame : NativeFrame)
    → occurs part (codes "load_bias") ≡ false
    → IsClean part item
    → validate_frame item ≡ some frame
    → IsClean part (dump_frame frame)
unfolding validate_frame
validate_frame-object part (Json.obj fs) frame bias_key clean h =
    dump_frame-IsClean part frame fs bias_key clean h
validate_frame-object part (Json.arr items) frame bias_key clean h = absurd (cc)
validate_frame-object part Json.null frame bias_key clean h = absurd (cc)
validate_frame-object part (Json.bool b) frame bias_key clean h = absurd (cc)
validate_frame-object part (Json.nat n) frame bias_key clean h = absurd (cc)
validate_frame-object part (Json.negative n) frame bias_key clean h = absurd (cc)
validate_frame-object part (Json.real t) frame bias_key clean h = absurd (cc)
validate_frame-object part (Json.str t) frame bias_key clean h = absurd (cc)

holds_text-dump_frame :
    (part : List ℕ) (frame : NativeFrame) → holds_text part (dump_frame frame) ≡ false
unfolding holds_text dump_frame
holds_text-dump_frame part frame = refl

frames-AreClean :
    (part : List ℕ) (items : Items)
    → occurs part (codes "load_bias") ≡ false
    → AreCleanItems part items
    → AreCleanItems part (dump_frames (validate_frames items))
unfolding dump_frames validate_frames
frames-AreClean part Items.nil bias_key clean = tt
frames-AreClean part (Items.cons item rest) bias_key clean =
    let rest' = frames-AreClean part rest bias_key clean.2 in
    elim (Option-cases (validate_frame item)) [
      | inl e ↦ rw e rest'
      | inr (frame, e) ↦ rw e (
        holds_text-dump_frame part frame,
        validate_frame-object part item frame bias_key clean.1 e,
        rest',
      )
    ]

pub object-AreClean :
    (part : List ℕ) (value : Json)
    → IsClean part value
    → AreCleanFields part (fields_of (some value))
object-AreClean part (Json.obj fs) h = h
object-AreClean part (Json.arr items) h = tt
object-AreClean part Json.null h = tt
object-AreClean part (Json.bool b) h = tt
object-AreClean part (Json.nat n) h = tt
object-AreClean part (Json.negative n) h = tt
object-AreClean part (Json.real t) h = tt
object-AreClean part (Json.str t) h = tt

fields_of-AreClean :
    (part : List ℕ) (key : String) (value : Option Json)
    → IsCleanAt part key value
    → AreCleanFields part (fields_of value)
unfolding IsCleanAt
fields_of-AreClean part key none h = tt
fields_of-AreClean part key (some value) h = object-AreClean part value h.2

items_of-AreClean :
    (part : List ℕ) (key : String) (value : Option Json)
    → IsCleanAt part key value
    → AreCleanItems part (items_of value)
unfolding IsCleanAt
items_of-AreClean part key none h = tt
items_of-AreClean part key (some (Json.arr items)) h = h.2
items_of-AreClean part key (some (Json.obj fs)) h = tt
items_of-AreClean part key (some Json.null) h = tt
items_of-AreClean part key (some (Json.bool b)) h = tt
items_of-AreClean part key (some (Json.nat n)) h = tt
items_of-AreClean part key (some (Json.negative n)) h = tt
items_of-AreClean part key (some (Json.real t)) h = tt
items_of-AreClean part key (some (Json.str t)) h = tt

with_frames-clean :
    (part : List ℕ) (key : String) (frames : List NativeFrame) (value : Option Json)
    → occurs part (codes "native_frames") ≡ false
    → AreCleanItems part (dump_frames frames)
    → IsCleanAt part key value
    → IsCleanAt part key (with_frames frames value)
unfolding IsCleanAt holds_text
with_frames-clean part key frames none frames_key clean h = tt
with_frames-clean part key frames (some (Json.obj fs)) frames_key clean h = (
  h.0,
  refl,
  put-AreClean part "native_frames" (Json.arr (dump_frames frames)) fs (frames_key, refl, clean)
      h.2,
)
with_frames-clean part key frames (some (Json.arr items)) frames_key clean h = h
with_frames-clean part key frames (some Json.null) frames_key clean h = h
with_frames-clean part key frames (some (Json.bool b)) frames_key clean h = h
with_frames-clean part key frames (some (Json.nat n)) frames_key clean h = h
with_frames-clean part key frames (some (Json.negative n)) frames_key clean h = h
with_frames-clean part key frames (some (Json.real t)) frames_key clean h = h
with_frames-clean part key frames (some (Json.str t)) frames_key clean h = h

put_value-AreClean :
    (part : List ℕ) (key : String) (value : Option Json) (fs : Fields)
    → IsCleanAt part key value
    → AreCleanFields part fs
    → AreCleanFields part (put_value key value fs)
put_value-AreClean part key none fs v h = h
put_value-AreClean part key (some value) fs v h = put-AreClean part key value fs v h

-- The payload with its frames written back stays clean.
pub safe_payload-AreClean :
    (part : List ℕ) (occurrence : Option OccurrenceContext) (payload : Fields)
    → occurs part (codes "native_frames") ≡ false
    → occurs part (codes "load_bias") ≡ false
    → AreCleanFields part payload
    → AreCleanFields part (safe_payload occurrence payload)
unfolding safe_payload
safe_payload-AreClean part none payload frames_key bias_key h = h
safe_payload-AreClean part (some o) payload frames_key bias_key h =
    let here = get-IsCleanAt part "occurrence" payload h in
    let fs = fields_of (get "occurrence" payload) in
    let inner = fields_of-AreClean part "occurrence" (get "occurrence" payload) here in
    let items = get-IsCleanAt part "native_frames" fs inner in
    put_value-AreClean part "occurrence" _ payload
      (with_frames-clean part "occurrence" (safe_frames payload) (get "occurrence" payload)
        frames_key
        (frames-AreClean part (items_of (get "native_frames" fs)) bias_key
          (items_of-AreClean part "native_frames" (get "native_frames" fs) items))
        here)
      h
