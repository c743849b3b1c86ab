-- ===== src/Events/Validate/Decisions.antt =====
-- The decisions that packages/events/src/validate.ts accepts, described without its checks.
use kp.Common.{
  ℕ, ◌<◌, ◌≡◌, ◌≢◌, ◌↔◌, refl, sym, subst, ap, ◌∙◌, true, inl, inr, Option, none, some, [], ◌∷◌,
  Text, text_eq, text_eq_iff, text_eq_refl, lit, lower, ==_iff, ◌==◌, length, Bool-cases,
  Option-cases,
}
use kp.KeeperHub.Json.{Json, Items, num, str, arr, obj, get, as_text, as_number}
use kp.Policy.Types.{Verdict}
use kp.Receipts.Hash.{Bytes, from_hex, to_hex}
use kp.Receipts.Receipt.{verdict_name}
use kp.Events.{event_version}
use kp.Events.Validate.{
  Validated, ok, fail, ◌>>=◌, DecodedDecision, decision, hex_test, validate_decision, validate_type,
  validate_version, validate_body, decode_event,
}
use kp.Events.Validate.Checks.{
  as_text_inv, as_number_inv, ok-eq-ok, check_intent_id_inv, check_verdict_inv, check_digest_inv,
  check_chain_id_inv, check_reasons_inv, check_at_inv, check_intent_id_ok, check_verdict_ok,
  check_digest_ok, check_chain_id_ok, check_at_ok,
}
use kp.Events.Validate.Digests.{from_hex-hex_test}

-- What a document says, field by field, and what holds of the fields.
abbrev pub IsDecision : (Text → Option ℕ) → DecodedDecision → Type 0
IsDecision parse_date e =
    (get (lit "v") e.body ≡ some (num event_version))
    × (get (lit "type") e.body ≡ some (str (lit "decision")))
    × (get (lit "intentId") e.body ≡ some (str e.intent_id))
    × (e.intent_id ≢ [])
    × (get (lit "verdict") e.body ≡ some (str (verdict_name e.verdict)))
    × (get (lit "digest") e.body ≡ some (str e.digest))
    × ((hex_test e.digest ≡ true) × (length e.digest ≡ 66))
    × (get (lit "chainId") e.body ≡ some (num e.chain_id))
    × (0 < e.chain_id)
    × ((items : Items) × (get (lit "reasons") e.body ≡ some (arr items)))
    × (get (lit "at") e.body ≡ some (str e.at))
    × ((t : ℕ) × (parse_date e.at ≡ some t))

decision_inv : {a b : DecodedDecision} → ok (decision a) ≡ ok (decision b) → a ≡ b
decision_inv h = cc

-- The results of the checks of a document that is accepted.
parts_inv :
    (id : Validated Text) (v : Validated Verdict) (d : Validated Text) (c : Validated ℕ)
    (u : Validated Unit) (t : Validated Text) (body : Json) (e : DecodedDecision)
    → (do
      id' ← id
      v' ← v
      d' ← d
      c' ← c
      u' ← u
      t' ← t
      ok (
          decision (record {
            intent_id = id';
            verdict = v';
            digest = d';
            chain_id = c';
            at = t';
            body = body;
          })))
      ≡ ok (decision e)
    → (id ≡ ok e.intent_id)
      × (v ≡ ok e.verdict)
      × (d ≡ ok e.digest)
      × (c ≡ ok e.chain_id)
      × ((r : Unit) × (u ≡ ok r))
      × (t ≡ ok e.at)
      × (e.body ≡ body)
parts_inv (ok a) (ok b) (ok c) (ok d) (ok u) (ok t) body e h =
    let g = decision_inv {b = e} h in
    (
      ap (λ (x : DecodedDecision). ok x.intent_id) g,
      ap (λ (x : DecodedDecision). ok x.verdict) g,
      ap (λ (x : DecodedDecision). ok x.digest) g,
      ap (λ (x : DecodedDecision). ok x.chain_id) g,
      (u, refl),
      ap (λ (x : DecodedDecision). ok x.at) g,
      sym (ap (λ (x : DecodedDecision). x.body) g),
    )
parts_inv (fail x) b c d u t body e h = cc
parts_inv (ok a) (fail x) c d u t body e h = cc
parts_inv (ok a) (ok b) (fail x) d u t body e h = cc
parts_inv (ok a) (ok b) (ok c) (fail x) u t body e h = cc
parts_inv (ok a) (ok b) (ok c) (ok d) (fail x) t body e h = cc
parts_inv (ok a) (ok b) (ok c) (ok d) (ok u) (fail x) body e h = cc

module _ (parse : Bytes → Option Json) (parse_date : Text → Option ℕ) where
  validate_decision_inv :
      (body : Json) (e : DecodedDecision)
      → validate_decision parse parse_date body ≡ ok (decision e)
      → get (lit "v") body ≡ some (num event_version)
      → get (lit "type") body ≡ some (str (lit "decision"))
      → IsDecision parse_date e × (e.body ≡ body)
  unfolding validate_decision
  validate_decision_inv body e h v t =
      let (p, q, r, s, (u, w), z, same) = parts_inv _ _ _ _ _ _ body e h in
      let (p1, p2) = check_intent_id_inv _ p in
      let q1 = check_verdict_inv _ q in
      let (r1, r2, r3) = check_digest_inv _ r in
      let (s1, s2) = check_chain_id_inv _ s in
      let w1 = check_reasons_inv _ w in
      let (z1, z2) = check_at_inv parse_date _ z in
      let is : IsDecision parse_date (record e { body = body }) = (
        v,
        t,
        as_text_inv _ p1,
        p2,
        as_text_inv _ q1,
        as_text_inv _ r1,
        (r2, r3),
        as_number_inv _ s1,
        s2,
        w1,
        as_text_inv _ z1,
        z2,
      ) in
      (subst (λ b. IsDecision parse_date (record e { body = b })) (sym same) is, same)

  validate_type_inv :
      (o : Option Text) (body : Json) (e : DecodedDecision)
      → validate_type parse parse_date o body ≡ ok (decision e)
      → (o ≡ some (lit "decision")) × (validate_decision parse parse_date body ≡ ok (decision e))
  unfolding validate_type
  validate_type_inv none body e h = cc
  validate_type_inv (some t) body e h = elim (Bool-cases (text_eq t (lit "decision"))) [
    | inl a ↦ (ap (λ x. some x) ((text_eq_iff t _).0 a), rw a at h)
    | inr a ↦ elim (Bool-cases (text_eq t (lit "anchor"))) [
      | inl b ↦ absurd (cc (ok-eq-ok (rw (a, b) at h)))
      | inr b ↦ elim (Bool-cases (text_eq t (lit "dead-letter"))) [
        | inl c ↦ absurd (cc (ok-eq-ok (rw (a, b, c) at h)))
        | inr c ↦ absurd (cc (rw (a, b, c) at h))
      ]
    ]
  ]

  validate_version_inv :
      (o : Option ℕ) (body : Json) (e : DecodedDecision)
      → validate_version parse parse_date o body ≡ ok (decision e)
      → (o ≡ some event_version)
        × (validate_type parse parse_date (as_text (get (lit "type") body)) body ≡ ok (decision e))
  unfolding validate_version
  validate_version_inv none body e h = cc
  validate_version_inv (some v) body e h = elim (Bool-cases (v == event_version)) [
    | inl a ↦ (ap (λ x. some x) ((==_iff v _).0 a), rw a at h)
    | inr a ↦ absurd (cc (rw a at h))
  ]

  validate_body_version :
      (body : Json) (e : DecodedDecision)
      → validate_body parse parse_date body ≡ ok (decision e)
      → validate_version parse parse_date (as_number (get (lit "v") body)) body ≡ ok (decision e)
  unfolding validate_body
  validate_body_version (obj fields) e h = h
  validate_body_version Json.null e h = cc
  validate_body_version (Json.bool b) e h = cc
  validate_body_version (num n) e h = cc
  validate_body_version (str s) e h = cc
  validate_body_version (arr items) e h = cc

  validate_body_inv :
      (body : Json) (e : DecodedDecision)
      → validate_body parse parse_date body ≡ ok (decision e)
      → IsDecision parse_date e × (e.body ≡ body)
  validate_body_inv body e h =
      let (v, k) = validate_version_inv _ body e (validate_body_version body e h) in
      let (t, l) = validate_type_inv _ body e k in
      validate_decision_inv body e l (as_number_inv _ v) (as_text_inv _ t)

  validate_decision_ok :
      (e : DecodedDecision)
      → IsDecision parse_date e
      → validate_decision parse parse_date e.body ≡ ok (decision e)
  unfolding validate_decision
  validate_decision_ok e (v, t, p1, p2, q1, r1, (r2, r3), s1, s2, (items, w1), z1, (date, z2)) =
      rw
        (
          p1,
          check_intent_id_ok e.intent_id p2,
          q1,
          check_verdict_ok e.verdict,
          r1,
          check_digest_ok e.digest r2 r3,
          s1,
          check_chain_id_ok e.chain_id s2,
          w1,
          z1,
          check_at_ok parse_date e.at date z2,
        )
        refl

  validate_version_ok :
      (body : Json)
      → get (lit "v") body ≡ some (num event_version)
      → get (lit "type") body ≡ some (str (lit "decision"))
      → validate_version parse parse_date (as_number (get (lit "v") body)) body
        ≡ validate_decision parse parse_date body
  unfolding validate_version validate_type
  validate_version_ok body v t = rw (v, t, text_eq_refl (lit "decision")) refl

  -- A document with a version is an object.
  validate_body_object :
      (body : Json) {v : Json}
      → get (lit "v") body ≡ some v
      → validate_body parse parse_date body
        ≡ validate_version parse parse_date (as_number (get (lit "v") body)) body
  unfolding validate_body get
  validate_body_object (obj fields) h = refl
  validate_body_object Json.null h = cc
  validate_body_object (Json.bool b) h = cc
  validate_body_object (num n) h = cc
  validate_body_object (str s) h = cc
  validate_body_object (arr items) h = cc

  validate_body_ok :
      (e : DecodedDecision)
      → IsDecision parse_date e
      → validate_body parse parse_date e.body ≡ ok (decision e)
  validate_body_ok e h =
      validate_body_object e.body h.0
      ∙ validate_version_ok e.body h.0 h.1
      ∙ validate_decision_ok e h

  -- A payload is accepted as a decision exactly if it is not empty, parses to the document that the
  -- decision keeps, and the document says what the decision says: version 1, the type `decision`, an
  -- id that is not empty, a verdict by its name, a digest of 66 units of hex text, a chain above
  -- zero, an array of reasons and a time that reads as a date.
  pub decode_event-decision_iff :
      (payload : Bytes) (e : DecodedDecision)
      → (decode_event parse parse_date (some payload) ≡ ok (decision e))
        ↔ ((payload ≢ []) × (parse payload ≡ some e.body) × IsDecision parse_date e)
  unfolding decode_event
  decode_event-decision_iff [] e = (λ h. cc, λ (n, p, h). absurd (n refl))
  decode_event-decision_iff (byte ∷ bytes) e = (
    λ h. elim (Option-cases (parse (byte ∷ bytes))) [
      | inl missing ↦ absurd (cc (rw (decode_event, missing) at h))
      | inr (body, found) ↦
          let (is, same) = validate_body_inv body e (rw (decode_event, found) at h) in
          (λ n. cc, rw same found, is)
    ],
    λ (n, p, h). rw (decode_event, p) (validate_body_ok e h),
  )

  -- Whatever payload is accepted as a decision, its digest reads as 32 bytes, and they print as the
  -- digest in lower case: a leaf of a Merkle tree.
  pub decode_event-digest :
      (payload : Option Bytes) (e : DecodedDecision)
      → decode_event parse parse_date payload ≡ ok (decision e)
      → (bytes : Bytes) × (from_hex e.digest ≡ some bytes)
        × (length bytes ≡ 32)
        × (to_hex bytes ≡ lower e.digest)
  unfolding decode_event
  decode_event-digest none e h = cc
  decode_event-digest (some payload) e h =
      let (n, p, is) = (decode_event-decision_iff payload e).0 h in
      from_hex-hex_test e.digest is.6.0 is.6.1
