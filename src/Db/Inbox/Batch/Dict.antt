-- ===== src/Db/Inbox/Batch/Dict.antt =====
-- The dict of the prepared events of db/inbox.py: assignments to its keys.
use android_apm_server.Prelude.{
  ◌+◌, ◌≤◌, ◌≡◌, sym, ◌∙◌, String, true, false, Option, some, List, [], ◌∷◌, length, arith, str_eq,
  eq_iff, eq_refl, All, &&-true, option_eq, option_eq_iff, Bool-cases, inl, inr, subst,
}
use android_apm_server.Db.Inbox.Prepare.{PreparedEvent}
use android_apm_server.Db.Inbox.Batch.{
  Prepared, find_prepared, put_prepared, quality_eq, same_signature, quality_text,
}
use android_apm_server.Db.Inbox.Insert.Rows.{IsDict}

pub put_prepared-All :
    (P : String × PreparedEvent → Type 0) (id : String) (item : PreparedEvent) (prepared : Prepared)
    → P (id, item)
    → All P prepared
    → All P (put_prepared id item prepared)
unfolding put_prepared
put_prepared-All P id item [] new h = (new, tt)
put_prepared-All P id item ((key, old) ∷ rest) new h = elim (Bool-cases (str_eq key id)) [
  | inl e ↦ rw e (subst (λ k. P (k, item)) (sym ((eq_iff key id).0 e)) new, h.1)
  | inr e ↦ rw e (h.0, put_prepared-All P id item rest new h.1)
]

put_prepared-apart :
    (k id : String) (item : PreparedEvent) (prepared : Prepared)
    → str_eq id k ≡ false
    → All (λ e. str_eq e.0 k ≡ false) prepared
    → All (λ e. str_eq e.0 k ≡ false) (put_prepared id item prepared)
put_prepared-apart k id item prepared apart h =
    put_prepared-All (λ e. str_eq e.0 k ≡ false) id item prepared apart h

pub put_prepared-IsDict :
    (id : String) (item : PreparedEvent) (prepared : Prepared)
    → item.event.event_id ≡ id
    → IsDict prepared
    → IsDict (put_prepared id item prepared)
unfolding put_prepared
put_prepared-IsDict id item [] keyed d = (keyed, tt, tt)
put_prepared-IsDict id item ((key, old) ∷ rest) keyed d = elim (Bool-cases (str_eq key id)) [
  | inl e ↦ rw e (keyed ∙ sym ((eq_iff key id).0 e), d.1, d.2)
  | inr e ↦ rw e (
    d.0,
    put_prepared-apart key id item rest (ground (arith, e, eq_iff key id, eq_iff id key)) d.1,
    put_prepared-IsDict id item rest keyed d.2,
  )
]

pub put_prepared-length :
    (id : String) (item : PreparedEvent) (prepared : Prepared)
    → length (put_prepared id item prepared) ≤ length prepared + 1
unfolding put_prepared
put_prepared-length id item [] = omega arith
put_prepared-length id item ((key, old) ∷ rest) = ground (arith, put_prepared-length id item rest)

pub put_prepared-find :
    (id : String) (item : PreparedEvent) (prepared : Prepared)
    → find_prepared id (put_prepared id item prepared) ≡ some item
unfolding find_prepared put_prepared
put_prepared-find id item [] = ground (arith, eq_refl id)
put_prepared-find id item ((key, old) ∷ rest) = ground (arith, put_prepared-find id item rest)

pub put_prepared-find_other :
    (id k : String) (item : PreparedEvent) (prepared : Prepared)
    → str_eq id k ≡ false
    → find_prepared k (put_prepared id item prepared) ≡ find_prepared k prepared
unfolding find_prepared put_prepared
put_prepared-find_other id k item [] e = ground (arith, e)
put_prepared-find_other id k item ((key, old) ∷ rest) e =
    ground (arith, e, eq_iff key id, put_prepared-find_other id k item rest e)

-- What holds of every entry holds of the one that is found.
pub All-find_prepared :
    (P : String × PreparedEvent → Type 0) (id : String) (item : PreparedEvent) (prepared : Prepared)
    → All P prepared
    → find_prepared id prepared ≡ some item
    → P (id, item)
unfolding find_prepared
All-find_prepared P id item [] h there = absurd (cc)
All-find_prepared P id item ((key, old) ∷ rest) h there = elim (Bool-cases (str_eq key id)) [
  | inl e ↦
      let same : old ≡ item = ground (arith, e, there) in
      subst (λ k. P (k, item)) ((eq_iff key id).0 e) (subst (λ i. P (key, i)) same h.0)
  | inr e ↦ All-find_prepared P id item rest h.1 (ground (arith, e, there))
]

-- The facts of `conflict_signature`, as they are compared.
abbrev pub conflict_signature : PreparedEvent → List (Option String)
conflict_signature p =
    some p.payload_hash
    ∷ p.app_version
    ∷ p.app_build
    ∷ p.version_code
    ∷ p.variant
    ∷ some (quality_text p.release_quality)
    ∷ some (quality_text p.installation_quality)
    ∷ p.installation_hmac
    ∷ []

pub same_signature-same :
    (a b : PreparedEvent) → same_signature a b ≡ true → conflict_signature a ≡ conflict_signature b
unfolding same_signature
same_signature-same a b h =
    let (h7, e8) = &&-true _ (option_eq a.installation_hmac b.installation_hmac) h in
    let (h6, e7) = &&-true _ (quality_eq a.installation_quality b.installation_quality) h7 in
    let (h5, e6) = &&-true _ (quality_eq a.release_quality b.release_quality) h6 in
    let (h4, e5) = &&-true _ (option_eq a.variant b.variant) h5 in
    let (h3, e4) = &&-true _ (option_eq a.version_code b.version_code) h4 in
    let (h2, e3) = &&-true _ (option_eq a.app_build b.app_build) h3 in
    let (e1, e2) = &&-true _ (option_eq a.app_version b.app_version) h2 in
    cc (
      (eq_iff a.payload_hash b.payload_hash).0 e1,
      (eq_iff (quality_text a.release_quality) (quality_text b.release_quality)).0 e6,
      (eq_iff (quality_text a.installation_quality) (quality_text b.installation_quality)).0 e7,
      (option_eq_iff a.app_version b.app_version).0 e2,
      (option_eq_iff a.app_build b.app_build).0 e3,
      (option_eq_iff a.version_code b.version_code).0 e4,
      (option_eq_iff a.variant b.variant).0 e5,
      (option_eq_iff a.installation_hmac b.installation_hmac).0 e8,
    )
