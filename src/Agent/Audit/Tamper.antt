-- ===== src/Agent/Audit/Tamper.antt =====
-- agent/hitl_audit.go: what the last hash of a file that verifies says of its entries.
use deepagent.Base.{
  ◌≡◌, ◌≢◌, refl, sym, ap, ◌∙◌, subst, Bool, Option, none, some, List, [], ◌∷◌, All,
}
use deepagent.Base.Text.{Str}
use deepagent.Agent.Audit.{Entry, Payload, Codec, compute_hitl_audit_hash, payload}
use deepagent.Agent.Audit.Verify.{
  pass, Cursor, top, IsLinked, check_line, check_lines, verify, step-pass, pass-injective,
  check_line-IsLinked,
}

-- The entries of a file, the newest first, before those of `acc`; a blank line holds none.
abbrev pub push_entry : Option Entry → List Entry → List Entry
push_entry none acc = acc
push_entry (some e) acc = e ∷ acc

unfoldable pub entries_onto : Codec → List Entry → List Str → List Entry
entries_onto c acc [] = acc
entries_onto c acc ([] ∷ rest) = entries_onto c acc rest
entries_onto c acc ((ch ∷ text) ∷ rest) =
    entries_onto c (push_entry (c.unmarshal (ch ∷ text)) acc) rest

module _ (c : Codec) where
  -- Every entry has the hash of its contents, which names the hash of the entry before it.
  abbrev Chained : Str → List Entry → Type 0
  Chained last [] = last ≡ []
  Chained last (e ∷ older) =
      (e.hash ≡ last) × (e.hash ≡ compute_hitl_audit_hash c e) × Chained e.prev_hash older

  Chained-push :
      (k k' : Cursor) (o : Option Entry) (e : Entry) (acc : List Entry)
      → o ≡ some e
      → IsLinked c k e k'
      → Chained k.prev_hash acc
      → Chained k'.prev_hash (push_entry o acc)
  Chained-push k k' o e acc read linked chain =
      rw read (sym linked.last, linked.sealed, subst (λ h. Chained h acc) (sym linked.prev) chain)

  check_lines-Chained :
      (strict : Bool) (k k' : Cursor) (acc : List Entry) (ls : List Str)
      → check_lines c strict k ls ≡ pass k'
      → Chained k.prev_hash acc
      → Chained k'.prev_hash (entries_onto c acc ls)
  unfolding check_lines check_line entries_onto
  check_lines-Chained strict k k' acc [] h chain =
      rw (ap (λ (r : Cursor). r.prev_hash) (pass-injective h)) at chain
  check_lines-Chained strict k k' acc ([] ∷ rest) h chain =
      check_lines-Chained strict _ k' acc rest h chain
  check_lines-Chained strict k k' acc ((ch ∷ text) ∷ rest) h chain =
      let (k1, checked, later) = step-pass (check_line c strict k (ch ∷ text)) _ h in
      let (e, read, linked, _) = check_line-IsLinked c strict k k1 (ch ∷ text) (λ p. cc) checked in
      check_lines-Chained strict k1 k' (push_entry (c.unmarshal (ch ∷ text)) acc) rest later
        (Chained-push k k1 _ e acc read linked chain)

  abbrev remade : Payload → Str → Entry
  remade q hash = record {
    timestamp = q.timestamp;
    body = q.body;
    prev_hash = q.prev_hash;
    hash = hash;
  }

  -- The digest of the entry is not empty, and differs from that of every other contents in `es'`.
  abbrev pub NoCollision : List Entry → Entry → Type 0
  NoCollision es' e =
      (compute_hitl_audit_hash c e ≢ [])
      × All
          (λ (e' : Entry).
            compute_hitl_audit_hash c e ≡ compute_hitl_audit_hash c e' → payload e ≡ payload e')
          es'

  same-entry :
      (e e' : Entry)
      → (compute_hitl_audit_hash c e ≡ compute_hitl_audit_hash c e' → payload e ≡ payload e')
      → e.hash ≡ compute_hitl_audit_hash c e
      → e'.hash ≡ compute_hitl_audit_hash c e'
      → e.hash ≡ e'.hash
      → e ≡ e'
  unfolding payload
  same-entry e e' p h h' same =
      ap (λ (q : Payload). remade q e.hash) (p (sym h ∙ same ∙ h')) ∙ ap (remade (payload e')) same

  NoCollision-older :
      (e' : Entry) (es' es : List Entry)
      → All (NoCollision (e' ∷ es')) es
      → All (NoCollision es') es
  NoCollision-older e' es' [] h = tt
  NoCollision-older e' es' (e ∷ es) ((solid, (_, others)), h) =
      ((solid, others), NoCollision-older e' es' es h)

  Chained-unique :
      (last : Str) (es es' : List Entry)
      → All (NoCollision es') es
      → All (NoCollision es) es'
      → Chained last es
      → Chained last es'
      → es ≡ es'
  Chained-unique last [] [] p p' h h' = refl
  Chained-unique last [] (e ∷ es) p ((solid, _), _) h (at_e, sealed, _) =
      absurd (solid (sym sealed ∙ at_e ∙ h))
  Chained-unique last (e ∷ es) [] ((solid, _), _) p' (at_e, sealed, _) h =
      absurd (solid (sym sealed ∙ at_e ∙ h))
  Chained-unique last (e ∷ es) (e' ∷ es') ((_, (p, _)), ps) (_, ps') (a, s, h) (a', s', h') =
      let same = same-entry e e' p s s' (a ∙ sym a') in
      let older =
        Chained-unique e.prev_hash es es' (NoCollision-older e' es' es ps)
          (NoCollision-older e es es' ps') h
          (subst (λ (r : Entry). Chained r.prev_hash es') (sym same) h') in
      rw (same, older) refl

  -- When no two entries of the files with different contents have the same digest, and none has
  -- the empty one, two files that verify and end on the same hash hold the same entries in the
  -- same order.
  pub verify-binding :
      (strict strict' : Bool) (xs ys : List Str) (k k' : Cursor)
      → All (NoCollision (entries_onto c [] ys)) (entries_onto c [] xs)
      → All (NoCollision (entries_onto c [] xs)) (entries_onto c [] ys)
      → verify c strict (some xs) ≡ pass k
      → verify c strict' (some ys) ≡ pass k'
      → k.prev_hash ≡ k'.prev_hash
      → entries_onto c [] xs ≡ entries_onto c [] ys
  unfolding verify
  verify-binding strict strict' xs ys k k' p p' h h' same =
      Chained-unique k'.prev_hash _ _ p p'
        (subst (λ last. Chained last (entries_onto c [] xs)) same
          (check_lines-Chained strict top k [] xs h refl))
        (check_lines-Chained strict' top k' [] ys h' refl)
