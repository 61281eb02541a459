-- ===== src/Protocol/Message/Ends.antt =====
-- How `Decode` and `Read` end, on every input.
use a_simple_rpc.Prelude.{ℕ, ◌+◌, ◌≡◌, inl, inr, refl, Bool-cases, Option-cases, ltb, drop}
use a_simple_rpc.Prelude.Bytes.{Bytes, get_be, slice}
use a_simple_rpc.Outcome.{meta_kv_missing, Outcome, ok, fail, panic, stuck}
use a_simple_rpc.Protocol.Metadata.{decode_metadata, Decoded}
use a_simple_rpc.Protocol.Metadata.Ends.{Ends, returned, missing, panicked, decode_metadata-Ends}
use a_simple_rpc.Protocol.Message.{
  Message, Reader, State, M, continue, ◌>>=◌, ◌>>◌, modify, piece, store_metadata, read_metadata,
  decode_body,
}

-- A part of the decoding of a body: it leaves the reader alone, and ends with a value, with the error
-- of the metadata, or with a panic.
pub data BodyEnds {A : Type 0} (r : Reader) (x : State × Outcome A) : Type 0 where
  done : (a : A) → x.1 ≡ ok a → x.0.reader ≡ r → BodyEnds r x
  failed : x.1 ≡ fail meta_kv_missing → x.0.reader ≡ r → BodyEnds r x
  paniced : x.1 ≡ panic → x.0.reader ≡ r → BodyEnds r x

module _ (r : Reader) where
  continue-BodyEnds :
      {A B : Type 0} (f : A → M B) (x : State × Outcome A)
      → BodyEnds r x
      → ((a : A) (s : State) → s.reader ≡ r → BodyEnds r (f a s))
      → BodyEnds r (continue f x)
  continue-BodyEnds f (s, ok a) (done b e k) h = h a s k
  continue-BodyEnds f (s, fail e) (done b e' k) h = absurd (cc e')
  continue-BodyEnds f (s, panic) (done b e k) h = absurd (cc e)
  continue-BodyEnds f (s, stuck) (done b e k) h = absurd (cc e)
  continue-BodyEnds f (s, ok a) (failed e k) h = absurd (cc e)
  continue-BodyEnds f (s, fail e') (failed e k) h = failed (cc e) k
  continue-BodyEnds f (s, panic) (failed e k) h = absurd (cc e)
  continue-BodyEnds f (s, stuck) (failed e k) h = absurd (cc e)
  continue-BodyEnds f (s, ok a) (paniced e k) h = absurd (cc e)
  continue-BodyEnds f (s, fail e') (paniced e k) h = absurd (cc e)
  continue-BodyEnds f (s, panic) (paniced e k) h = paniced refl k
  continue-BodyEnds f (s, stuck) (paniced e k) h = absurd (cc e)

  piece-BodyEnds :
      (bs : Bytes) (lo hi : ℕ) (s : State) → s.reader ≡ r → BodyEnds r (piece bs lo hi s)
  unfolding piece
  piece-BodyEnds bs lo hi s k = elim (Option-cases (slice bs lo hi)) [
    | inl out ↦ paniced (rw (out, piece)) k
    | inr (p, found) ↦ done p (rw (found, piece)) k
  ]

  modify-BodyEnds : (f : Message → Message) (s : State) → s.reader ≡ r → BodyEnds r (modify f s)
  modify-BodyEnds f s k = done tt refl k

  store_metadata-BodyEnds :
      (o : Outcome Decoded) (s : State) → Ends o → s.reader ≡ r → BodyEnds r (store_metadata o s)
  unfolding store_metadata
  store_metadata-BodyEnds (ok (m, e)) s returned k = done tt refl k
  store_metadata-BodyEnds (ok (m, e)) s missing k = failed refl k
  store_metadata-BodyEnds panic s panicked k = paniced refl k
  store_metadata-BodyEnds (fail e) s h k = elim h [ ]
  store_metadata-BodyEnds stuck s h k = elim h [ ]

  read_metadata-BodyEnds :
      (bs : Bytes) (l lo hi : ℕ) (s : State)
      → s.reader ≡ r
      → BodyEnds r (read_metadata bs l lo hi s)
  unfolding read_metadata
  read_metadata-BodyEnds bs l lo hi s k = elim (Bool-cases (ltb 0 l)) [
    | inr empty ↦ rw empty (done tt refl k)
    | inl full ↦ rw full (
        continue-BodyEnds (λ _. store_metadata (decode_metadata l (drop lo bs))) (piece bs lo hi s)
          (piece-BodyEnds bs lo hi s k)
          λ p s'. store_metadata-BodyEnds _ s' (decode_metadata-Ends l (drop lo bs)))
  ]

  -- A computation all of whose runs from this reader are such parts.
  record Keeps {A : Type 0} (m : M A) : Type 0 where
    ends : (s : State) → s.reader ≡ r → BodyEnds r (m s)

  then-Keeps :
      {A B : Type 0} {m : M A} {f : A → M B} → Keeps m → ((a : A) → Keeps (f a)) → Keeps (m >>= f)
  then-Keeps h k = record { ends = λ s e. continue-BodyEnds _ _ (h.ends s e) (λ a. (k a).ends) }

  seq-Keeps : {B : Type 0} {m : M (Unit {0})} {k : M B} → Keeps m → Keeps k → Keeps (m >> k)
  seq-Keeps h k = then-Keeps h (λ a. k)

  piece-Keeps : (bs : Bytes) (lo hi : ℕ) → Keeps (piece bs lo hi)
  piece-Keeps bs lo hi = record { ends = piece-BodyEnds bs lo hi }

  modify-Keeps : (f : Message → Message) → Keeps (modify f)
  modify-Keeps f = record { ends = modify-BodyEnds f }

  read_metadata-Keeps : (bs : Bytes) (l lo hi : ℕ) → Keeps (read_metadata bs l lo hi)
  read_metadata-Keeps bs l lo hi = record { ends = read_metadata-BodyEnds bs l lo hi }

  decode_body-Keeps : (bs : Bytes) → Keeps (decode_body bs)
  unfolding decode_body
  decode_body-Keeps bs = then-Keeps (piece-Keeps bs 0 4) λ sp_l.
      let end1 = 4 + get_be sp_l in
      then-Keeps (piece-Keeps bs 4 end1) λ sp.
        seq-Keeps (modify-Keeps (λ m. record m { service_path = sp })) (
          then-Keeps (piece-Keeps bs end1 (end1 + 4)) λ sm_l.
            let end2 = end1 + 4 + get_be sm_l in
            then-Keeps (piece-Keeps bs (end1 + 4) end2) λ sm.
              seq-Keeps (modify-Keeps (λ m. record m { service_method = sm })) (
                then-Keeps (piece-Keeps bs end2 (end2 + 4)) λ md_l.
                  let end3 = end2 + 4 + get_be md_l in
                  seq-Keeps (read_metadata-Keeps bs (get_be md_l) (end2 + 4) end3) (
                    then-Keeps (piece-Keeps bs end3 (end3 + 4)) λ py_l.
                      then-Keeps (piece-Keeps bs (end3 + 4) (end3 + 4 + get_be py_l))
                        λ payload. modify-Keeps (λ m. record m { payload = payload }))))

  pub decode_body-BodyEnds : (bs : Bytes) (s : State) → s.reader ≡ r → BodyEnds r (decode_body bs s)
  decode_body-BodyEnds bs = (decode_body-Keeps bs).ends
