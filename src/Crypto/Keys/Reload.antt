-- ===== src/Crypto/Keys/Reload.antt =====
-- What a start of the program leaves of the keys and the key files (crypto.c).
use transaction_models_minin.Common.{
  ◌≡◌, refl, sym, ap, ◌∙◌, ◌⊎◌, inl, inr, Bool, true, false, List, ℕ, none, some, arith,
  if◌then◌else◌, Bool-cases, Option-cases,
}
use transaction_models_minin.Common.Text.{Text, strcmp_eq}
use transaction_models_minin.Crypto.Keys.{
  Files, KeyCalls, Keys, put_file, private_key_file, public_key_file, write_pem_key, write_pair,
  create_keys, is_loaded, have_both, load_keys, load_or_create_keys, crypto_init_keys,
}

module _ {Key : Type 0} (calls : KeyCalls Key) where
  write_pem_key-written :
      (files files' : Files) (path : Text) (k : Key) (is_private : Bool)
      → write_pem_key calls files path k is_private ≡ (true, files')
      → (t : Text) × ((if is_private then calls.write_private k else calls.write_public k)
          ≡ (true, t))
        × (put_file files path t ≡ files')
  unfolding write_pem_key
  write_pem_key-written files files' path k is_private done =
      elim (Bool-cases (calls.can_write path)) [
        | inr closed ↦ absurd (ground arith)
        | inl opened ↦
            let w = if is_private then calls.write_private k else calls.write_public k in
            let same : (w.0, put_file files path w.1) ≡ (true, files') = rw opened at done in
            (w.1, ap (λ r. (r.0, w.1)) same, ap (λ r. r.1) same)
      ]

  -- The content of the two files that `write_pair` leaves when it succeeds.
  write_pair-written :
      (files files' : Files) (private public : Key)
      → write_pair calls files private public ≡ (true, files')
      → (t u : Text) × (calls.write_private private ≡ (true, t))
        × (calls.write_public public ≡ (true, u))
        × (files' private_key_file ≡ some t)
        × (files' public_key_file ≡ some u)
  unfolding write_pair strcmp_eq
  write_pair-written files files' private public done =
      let first = write_pem_key calls files private_key_file private true in
      elim (Bool-cases first.0) [
        | inr failed ↦ absurd (ground arith)
        | inl written ↦
            let (t, wrote, same) =
              write_pem_key-written files first.1 private_key_file private true
                (ap (λ r. (r, first.1)) written) in
            let second : write_pem_key calls first.1 public_key_file public false ≡ (true, files') =
              rw written at done in
            let (u, wrote', same') =
              write_pem_key-written first.1 files' public_key_file public false second in
            (
              t,
              u,
              wrote,
              wrote',
              sym (ap (λ g. g private_key_file) same') ∙ sym (ap (λ g. g private_key_file) same),
              sym (ap (λ g. g public_key_file) same'),
            )
      ]

  -- Some key file cannot be read.
  abbrev pub IsFirstStart : Files → Type 0
  IsFirstStart files = (files private_key_file ≡ none) ⊎ (files public_key_file ≡ none)

  pub first_start-creates :
      (files : Files) (keys : Keys Key)
      → IsFirstStart files
      → crypto_init_keys calls files keys ≡ create_keys calls files keys
  unfolding crypto_init_keys load_or_create_keys
  first_start-creates files keys (inl h) = rw (h, crypto_init_keys, load_or_create_keys) refl
  first_start-creates files keys (inr h) = elim (Option-cases (files private_key_file)) [
    | inl h' ↦ rw (h', crypto_init_keys, load_or_create_keys) refl
    | inr (t, h') ↦ rw (h', h, crypto_init_keys, load_or_create_keys) refl
  ]

  -- What a start leaves that made the keys.
  record IsMade (files' : Files) (keys' : Keys Key) : Type 0 where
    private : Key
    public : Key
    made : calls.ec_gen ≡ some private
    copied : calls.pkey_dup private ≡ some public
    kept : record { private_key = some private; public_key = some public } ≡ keys'
    private_pem : Text
    public_pem : Text
    wrote_private : calls.write_private private ≡ (true, private_pem)
    wrote_public : calls.write_public public ≡ (true, public_pem)
    private_file : files' private_key_file ≡ some private_pem
    public_file : files' public_key_file ≡ some public_pem

  abbrev pub both_keys : Key → Key → Bool × Files → Bool × (Keys Key × Files)
  both_keys private public (written, files) =
      (written, (record { private_key = some private; public_key = some public }, files))

  create_keys-IsMade :
      (files files' : Files) (keys keys' : Keys Key)
      → create_keys calls files keys ≡ (true, (keys', files'))
      → IsMade files' keys'
  unfolding create_keys
  create_keys-IsMade files files' keys keys' done = elim (Option-cases calls.ec_gen) [
    | inl failed ↦ absurd (ground arith)
    | inr (private, made) ↦ elim (Option-cases (calls.pkey_dup private)) [
      | inl failed ↦ absurd (ground arith)
      | inr (public, copied) ↦
          let w = write_pair calls files private public in
          let all : both_keys private public w ≡ (true, (keys', files')) = ground arith in
          let (t, u, wrote, wrote', file, file') =
            write_pair-written files files' private public (ap (λ r. (r.0, r.1.1)) all) in
          record {
            private = private;
            public = public;
            made = made;
            copied = copied;
            kept = ap (λ r. r.1.0) all;
            private_pem = t;
            public_pem = u;
            wrote_private = wrote;
            wrote_public = wrote';
            private_file = file;
            public_file = file';
          }
    ]
  ]

  loads :
      (files : Files) (keys : Keys Key) (t u : Text) (private public : Key)
      → files private_key_file ≡ some t
      → files public_key_file ≡ some u
      → calls.read_private t ≡ some private
      → calls.read_public u ≡ some public
      → crypto_init_keys calls files keys
        ≡ (true, (record { private_key = some private; public_key = some public }, files))
  unfolding crypto_init_keys load_or_create_keys load_keys have_both is_loaded
  loads files keys t u private public file file' read read' =
      rw (file, file', read, read', crypto_init_keys, load_or_create_keys) refl

module _ {Key : Type 0} (calls later : KeyCalls Key) where
  -- What OpenSSL documents: a generated key and its copy are a pair, and a key that was written in one
  -- run is read back in the later one, the public one as a key that accepts the same signatures.
  pub record KeyLaws : Type 0 where
    pub pair :
        (private public : Key) (p : Text) (s : List ℕ)
        → calls.ec_gen ≡ some private
        → calls.pkey_dup private ≡ some public
        → calls.digest_sign private p ≡ some s
        → calls.digest_verify public s p ≡ true
    pub private_back :
        (k : Key) (t : Text) → calls.write_private k ≡ (true, t) → later.read_private t ≡ some k
    pub public_back :
        (k : Key) (t : Text)
        → calls.write_public k ≡ (true, t)
        → (k' : Key) × (later.read_public t ≡ some k')
          × ((s : List ℕ) (p : Text) → later.digest_verify k' s p ≡ calls.digest_verify k s p)

  -- A start that misses a key file makes a new pair and, if it succeeds, leaves the pair in both files,
  -- whatever the other file held: the start of a later run succeeds, changes no file, and has the same
  -- private key and a public key that accepts the same signatures, whatever new key it could have made.
  pub crypto_init_keys-reloads :
      (files files' : Files) (keys keys' before : Keys Key)
      → KeyLaws
      → IsFirstStart calls files
      → crypto_init_keys calls files keys ≡ (true, (keys', files'))
      → (private public public' : Key) × (calls.ec_gen ≡ some private)
        × (calls.pkey_dup private ≡ some public)
        × (record { private_key = some private; public_key = some public } ≡ keys')
        × (crypto_init_keys later files' before
            ≡ (true, (record { private_key = some private; public_key = some public' }, files')))
        × ((s : List ℕ) (p : Text)
            → later.digest_verify public' s p ≡ calls.digest_verify public s p)
  crypto_init_keys-reloads files files' keys keys' before laws first done =
      let m =
        create_keys-IsMade calls files files' keys keys'
          (sym (first_start-creates calls files keys first) ∙ done) in
      let (public', read, same) = laws.public_back m.public m.public_pem m.wrote_public in
      (
        m.private,
        m.public,
        public',
        m.made,
        m.copied,
        m.kept,
        loads later files' before m.private_pem m.public_pem m.private public' m.private_file
            m.public_file (laws.private_back m.private m.private_pem m.wrote_private) read,
        same,
      )
