-- ===== src/PubSub/Convert/Accepts.antt =====
-- Which push deliveries are well-formed, and which error the others have.
use open_functions.Prelude.{
  [], Bytes, codes, true, false, none, some, Result-cases, ok, ◌≡◌, sym, ap, ◌⊎◌, inl, inr, ◌↔◌,
  Option-cases, Bool-cases, arith, ◌>>=◌,
}
use open_functions.PubSub.Convert.{
  Json, Formats, PushEnvelope, and_then, ok_or, message_data, envelope_of, parse_push_envelope,
}

module _ (j : Json) (f : Formats j) where
  -- `content` is what the message carries: nothing, or the decoded text.
  abbrev pub Carries : j.Object → Bytes → Type 0
  Carries message content =
      ((j.get (codes "data") message ≡ none) × (content ≡ []))
      ⊎ ((v : j.Value) × (j.get (codes "data") message ≡ some v)
          × (((j.is_null v ≡ true) × (content ≡ []))
              ⊎ ((text : Bytes) × (j.is_null v ≡ false)
                  × (j.as_str v ≡ some text)
                  × (f.decode text ≡ some content))))

  -- The body is a JSON object with a message object, which carries `content`.
  pub record IsDelivery (raw : Bytes) (root message : j.Object) (content : Bytes) : Type 0 where
    pub value : j.Value
    pub parsed : j.from_slice raw ≡ some value
    pub is_object : j.as_object value ≡ some root
    pub has_message : and_then (j.get (codes "message") root) (j.as_object) ≡ some message
    pub carries : Carries message content

  message_data_sound :
      (message : j.Object) (content : Bytes)
      → message_data j f message ≡ ok content
      → Carries message content
  unfolding message_data
  message_data_sound message content h = elim (Option-cases (j.get (codes "data") message)) [
    | inl n ↦ inl (n, ground arith)
    | inr (v, e) ↦ inr (
      v,
      e,
      elim (Bool-cases (j.is_null v)) [
        | inl t ↦ inl (t, ground arith)
        | inr t ↦ elim (Option-cases (j.as_str v)) [
          | inl s ↦ absurd (ground arith)
          | inr (text, s) ↦ elim (Option-cases (f.decode text)) [
            | inl d ↦ absurd (ground arith)
            | inr (c, d) ↦ inr (text, t, s, ground arith)
          ]
        ]
      ],
    )
  ]

  message_data_complete :
      (message : j.Object) (content : Bytes)
      → Carries message content
      → message_data j f message ≡ ok content
  unfolding message_data
  message_data_complete message content (inl (n, e)) = ground arith
  message_data_complete message content (inr (v, e, inl (t, c))) = ground arith
  message_data_complete message content (inr (v, e, inr (text, t, s, c))) = ground arith

  parse_sound :
      (t raw : Bytes) (e : PushEnvelope)
      → parse_push_envelope j f t raw ≡ ok e
      → (root : j.Object) × (message : j.Object) × (content : Bytes) × IsDelivery raw root message
          content
        × (e ≡ envelope_of j f t root message content)
  unfolding parse_push_envelope
  parse_sound t raw e h = elim (Option-cases (j.from_slice raw)) [
    | inl n ↦ absurd (ground arith)
    | inr (value, p) ↦ elim (Option-cases (j.as_object value)) [
      | inl n ↦ absurd (ground arith)
      | inr (root, q) ↦
          elim (Option-cases (and_then (j.get (codes "message") root) (j.as_object))) [
            | inl n ↦ absurd (ground arith)
            | inr (message, m) ↦ elim (Result-cases (message_data j f message)) [
              | inl (content, d) ↦ (
                root,
                message,
                content,
                record {
                  value = value;
                  parsed = p;
                  is_object = q;
                  has_message = m;
                  carries = message_data_sound message content d;
                },
                ground arith,
              )
              | inr (x, d) ↦ absurd (ground arith)
            ]
          ]
    ]
  ]

  -- A body is accepted exactly when it is a JSON object with a message object whose data is absent,
  -- null or a text that base64 decodes; the envelope is then made of these.
  pub parse_push_envelope_iff :
      (t raw : Bytes) (e : PushEnvelope)
      → (parse_push_envelope j f t raw ≡ ok e) ↔ (
          (root : j.Object) × (message : j.Object) × (content : Bytes) × IsDelivery raw root message
            content
          × (e ≡ envelope_of j f t root message content))
  unfolding parse_push_envelope
  parse_push_envelope_iff t raw e = (
    parse_sound t raw e,
    λ (root, message, content, d, q).
        rw
          (
            d.parsed,
            d.is_object,
            d.has_message,
            message_data_complete message content d.carries,
            ◌>>=◌,
            ok_or,
          )
          (ap ok (sym q)),
  )
