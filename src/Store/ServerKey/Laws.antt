-- ===== src/Store/ServerKey/Laws.antt =====
-- internal/store/serverkey.go: making the key pair, and replacing its public key.
use nox_app.Base.{
  ◌≡◌, refl, ap, sym, ◌∙◌, subst, Bool, true, false, Option, none, some, [], ◌∷◌, inl, inr,
  Option-cases, Bool-cases, arith, length,
}
use nox_app.Db.{Db, ServerRow}
use nox_app.Tx.{Tx, Result, ok, err, ◌>>=◌}
use nox_app.Tx.Within.{>>=-eq-ok}
use nox_app.Store.ServerKey.{
  lift_result, ensure_from, key_of_row, fresh_row, or_internal, Key, key_size, Codec, KeyPair,
  KeySource, same_bytes, sized, ensure_server_identity, mint_server_identity,
  decode_server_public_key, server_key, server_key_of, reconcile, rekey_server_identity,
}

lifted :
    {A : Type 0} (x : Result A) (a : A) (db db' : Db)
    → lift_result x db ≡ ok (a, db')
    → (x ≡ ok a) × (db' ≡ db)
lifted (ok b) a db db' e = (ground arith, ground arith)
lifted (err x) a db db' e = cc

drawn : {A : Type 0} (o : Option A) (a : A) → or_internal o ≡ ok a → o ≡ some a
drawn none a e = cc
drawn (some b) a e = ground arith

module _ (codec : Codec) where
  decoded :
      (k : Key)
      → codec.decode (codec.encode k) ≡ some k
      → length k ≡ key_size
      → sized (codec.decode (codec.encode k)) ≡ ok k
  decoded k back size = rw (back, size) refl

  -- Where the row is there, its public key is the answer and nothing is written.
  pub ensure_found :
      (keys : KeySource) (db : Db) (r : ServerRow) (k : Key)
      → db.server_identity ≡ some r
      → sized (codec.decode r.public_key) ≡ ok k
      → ensure_server_identity codec keys db ≡ ok (k, db)
  unfolding ensure_server_identity decode_server_public_key
  ensure_found keys db r k there answer = rw (there, answer) refl

  pub ensure_still :
      (keys : KeySource) (db db' : Db) (r : ServerRow) (k : Key)
      → db.server_identity ≡ some r
      → ensure_server_identity codec keys db ≡ ok (k, db')
      → (sized (codec.decode r.public_key) ≡ ok k) × (db' ≡ db)
  unfolding ensure_server_identity decode_server_public_key
  ensure_still keys db db' r k there e =
      lifted (sized (codec.decode r.public_key)) k db db'
        (subst (λ o. ensure_from codec o keys db ≡ ok (k, db')) there e)

  -- Where the codec decodes a generated public key that it encoded, and it has 32 bytes: a call
  -- that answers leaves the row of the key it answers.
  pub ensure_settles :
      (keys : KeySource) (db db' : Db) (k : Key)
      → ((p : KeyPair)
          → keys.generated ≡ some p
          → codec.decode (codec.encode p.public_key) ≡ some p.public_key)
      → ((p : KeyPair) → keys.generated ≡ some p → length p.public_key ≡ key_size)
      → ensure_server_identity codec keys db ≡ ok (k, db')
      → (r : ServerRow) × (db'.server_identity ≡ some r)
        × (sized (codec.decode r.public_key) ≡ ok k)
  unfolding ensure_server_identity mint_server_identity
  ensure_settles keys db db' k back size e = elim (Option-cases db.server_identity) [
    | inr (r, there) ↦
        let (answer, still) = ensure_still keys db db' r k there e in
        (r, ap (λ d. d.server_identity) still ∙ there, answer)
    | inl none_yet ↦ elim (Option-cases keys.generated) [
      | inl failed ↦ absurd (ground arith)
      | inr (p, made) ↦
          let whole : db'.server_identity ≡ some (fresh_row codec p) = ground arith in
          let key : k ≡ p.public_key = ground arith in
          (
            fresh_row codec p,
            whole,
            decoded p.public_key (back p made) (size p made) ∙ ap ok (sym key),
          )
    ]
  ]

  same_bytes_refl : (k : Key) → same_bytes k k ≡ true
  unfolding same_bytes
  same_bytes_refl [] = refl
  same_bytes_refl (b ∷ k) = ground (arith, same_bytes_refl k)

  module _ (keys : KeySource) (r : ServerRow) where
    -- ServerKey from its question to the key source on, and from its second decoding on.
    abbrev from_public : Key → Key → Tx (Key × Bool)
    from_public own stored = lift_result (or_internal (keys.public_of own)) >>= λ public.
        reconcile codec own stored public

    abbrev from_stored : Key → Tx (Key × Bool)
    from_stored own = lift_result (decode_server_public_key codec r.public_key) >>= λ stored.
        from_public own stored

    reconciled :
        (own stored public own' : Key) (db db' : Db)
        → reconcile codec own stored public db ≡ ok ((own', true), db')
        → (own ≡ own') × (rekey_server_identity codec public db ≡ ok (tt, db'))
    unfolding reconcile rekey_server_identity
    reconciled own stored public own' db db' e = elim (Bool-cases (same_bytes stored public)) [
      | inl h ↦ absurd (ground arith)
      | inr h ↦ (ground arith, ground arith)
    ]

    unreplaced :
        (own stored public own' : Key) (db db' : Db)
        → reconcile codec own stored public db ≡ ok ((own', false), db')
        → db' ≡ db
    unfolding reconcile rekey_server_identity
    unreplaced own stored public own' db db' e = elim (Bool-cases (same_bytes stored public)) [
      | inl h ↦ ground arith
      | inr h ↦ absurd (ground arith)
    ]

    -- What a start had read before it compared the keys.
    reads_of :
        (db db' : Db) (own : Key) (replaced : Bool)
        → server_key_of codec keys r db ≡ ok ((own, replaced), db')
        → (own₁ : Key) × (stored : Key) × (public : Key) × (sized (codec.decode r.private_key)
            ≡ ok own₁)
          × (keys.public_of own₁ ≡ some public)
          × (reconcile codec own₁ stored public db ≡ ok ((own, replaced), db'))
    unfolding server_key_of
    reads_of db db' own replaced e =
        let (own₁, db₁, e₁, rest₁) =
          >>=-eq-ok (lift_result (sized (codec.decode r.private_key))) from_stored db
            (own, replaced) db' e in
        let (stored, db₂, e₂, rest₂) =
          >>=-eq-ok (lift_result (decode_server_public_key codec r.public_key))
            (λ stored. from_public own₁ stored) db₁ (own, replaced) db' rest₁ in
        let (public, db₃, e₃, rest₃) =
          >>=-eq-ok (lift_result (or_internal (keys.public_of own₁)))
            (λ public. reconcile codec own₁ stored public) db₂ (own, replaced) db' rest₂ in
        let f₁ = lifted (sized (codec.decode r.private_key)) own₁ db db₁ e₁ in
        let f₂ = lifted (decode_server_public_key codec r.public_key) stored db₁ db₂ e₂ in
        let f₃ = lifted (or_internal (keys.public_of own₁)) public db₂ db₃ e₃ in
        let start : db₃ ≡ db = f₃.1 ∙ f₂.1 ∙ f₁.1 in
        (
          own₁,
          stored,
          public,
          f₁.0,
          drawn (keys.public_of own₁) public f₃.0,
          subst (λ d. reconcile codec own₁ stored public d ≡ ok ((own, replaced), db')) start rest₃,
        )

    pub kept_by :
        (db db' : Db) (own : Key)
        → server_key_of codec keys r db ≡ ok ((own, false), db')
        → db' ≡ db
    kept_by db db' own e =
        let (own₁, stored, public, own_read, public_read, rest) = reads_of db db' own false e in
        unreplaced own₁ stored public own db db' rest

    -- What a start that replaced the key had read.
    rekeyed_by :
        (db db' : Db) (own : Key)
        → server_key_of codec keys r db ≡ ok ((own, true), db')
        → (public : Key) × (sized (codec.decode r.private_key) ≡ ok own)
          × (keys.public_of own ≡ some public)
          × (rekey_server_identity codec public db ≡ ok (tt, db'))
    rekeyed_by db db' own e =
        let (own₁, stored, public, own_read, public_read, rest) = reads_of db db' own true e in
        let (mine, wrote) = reconciled own₁ stored public own db db' rest in
        (public, own_read ∙ ap ok mine, ap keys.public_of (sym mine) ∙ public_read, wrote)

  -- Where the codec decodes each public key of the source that it encoded, and each has 32 bytes:
  -- a start that replaces the public key, over the database that the read pool had shown, keeps
  -- the people, leaves no device, token or request, and the next start answers the same private
  -- key and replaces nothing.
  pub server_key_rekeyed :
      (keys : KeySource) (db db' : Db) (own : Key)
      → ((k p : Key) → keys.public_of k ≡ some p → codec.decode (codec.encode p) ≡ some p)
      → ((k p : Key) → keys.public_of k ≡ some p → length p ≡ key_size)
      → server_key codec keys db db ≡ ok ((own, true), db')
      → (db'.users ≡ db.users)
        × (db'.devices ≡ [])
        × (db'.tokens ≡ [])
        × (db'.requests ≡ [])
        × (server_key codec keys db' db' ≡ ok ((own, false), db'))
  unfolding server_key server_key_of reconcile rekey_server_identity decode_server_public_key
  server_key_rekeyed keys db db' own back size e = elim (Option-cases db.server_identity) [
    | inl none_yet ↦ absurd (ground arith)
    | inr (r, there) ↦
        let (public, own_read, public_read, wrote) =
          rekeyed_by keys r db db' own
            (subst (λ o. key_of_row codec keys o db ≡ ok ((own, true), db')) there e) in
        let row : ServerRow = record r { public_key = codec.encode public } in
        let whole : db'.server_identity ≡ some row = ground arith in
        (
          ground arith,
          ground arith,
          ground arith,
          ground arith,
          rw
              (
                whole,
                own_read,
                decoded public (back own public public_read) (size own public public_read),
                public_read,
                same_bytes_refl public,
              )
              refl,
        )
  ]
