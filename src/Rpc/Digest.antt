-- ===== src/Rpc/Digest.antt =====
-- otsserver/rpc.py: `do_POST` and `post_digest`, by the cases of a request.
use opentimestamps_server.Prelude.{
  ◌≤◌, ◌≡◌, ◌∙◌, refl, sym, ap, Bool, true, false, Option, none, some, Bytes, codes, bytes_eq,
  bytes_eq_iff, length, take, ltb, ◌==◌, ==_iff, Bool-cases, inl, inr, ◌⊎◌, arith,
}
use opentimestamps_server.Rpc.{
  Reply, Signed, plus, minus, Post, Submit, submitted, read_digest, post_digest, do_post,
  int_header, max_digest_length,
}

-- The reply refuses the request, and the shared state is what it was.
abbrev pub IsRefused {ℓ} : {S : Type ℓ} → S → Reply × S → Type ℓ
IsRefused s (r, s') = (400 ≤ r.status) × (r.status ≤ 404) × (s' ≡ s)

-- The declared length is one that the calendar takes and has arrived whole: what is submitted is
-- exactly that many bytes.
abbrev pub IsWhole : Post → Bytes → Type 0
IsWhole post digest =
    (int_header post.content_length ≡ some (plus (length digest)))
    × (digest ≡ take (length digest) post.sent)
    × (1 ≤ length digest)
    × (length digest ≤ max_digest_length)

abbrev pub IsSubmitted {ℓ} : {S : Type ℓ} → Submit S → Bool → Post → S → Reply × S → Type ℓ
IsSubmitted submit counted post s out =
    (digest : Bytes) × IsWhole post digest × (out ≡ submitted (submit digest counted s))

read_digest-cases {ℓ} :
    {S : Type ℓ} (submit : Submit S) (counted : Bool) (post : Post) (o : Option Signed) (s : S)
    → int_header post.content_length ≡ o
    → IsRefused s (read_digest submit counted post.sent o s)
      ⊎ IsSubmitted submit counted post s (read_digest submit counted post.sent o s)
read_digest-cases submit counted post none s e = inl (omega arith, omega arith, refl)
read_digest-cases submit counted post (some (minus n)) s e = inl (omega arith, omega arith, refl)
read_digest-cases submit counted post (some (plus n)) s e = elim (Bool-cases (ltb n 1)) [
  | inl short ↦ rw short (inl (omega arith, omega arith, refl))
  | inr some_length ↦ rw some_length (elim (Bool-cases (ltb max_digest_length n)) [
    | inl long ↦ rw long (inl (omega arith, omega arith, refl))
    | inr fits ↦ rw fits (elim (Bool-cases (length (take n post.sent) == n)) [
      | inr cut ↦ rw cut (inl (omega arith, omega arith, refl))
      | inl whole ↦ rw whole (
          inr (
            take n post.sent,
            (
              e ∙ ap (λ k. some (plus k)) (sym (size whole)),
              ap (λ k. take k post.sent) (sym (size whole)),
              ground (arith, size whole),
              ground (arith, size whole),
            ),
            refl,
          ))
    ])
  ])
]
  where
    size : (length (take n post.sent) == n) ≡ true → length (take n post.sent) ≡ n
    size whole = (==_iff (length (take n post.sent)) n).0 whole

pub post_digest-cases {ℓ} :
    {S : Type ℓ} (submit : Submit S) (counted : Bool) (post : Post) (s : S)
    → IsRefused s (post_digest submit counted post s)
      ⊎ IsSubmitted submit counted post s (post_digest submit counted post s)
unfolding post_digest
post_digest-cases submit counted post s =
    read_digest-cases submit counted post (int_header post.content_length) s refl

-- Refused, or one submit of the lane that the path names.
abbrev pub IsRouted {ℓ} : {S : Type ℓ} → Submit S → Bool → Bytes → Post → S → Reply × S → Type ℓ
IsRouted submit lane path post s out =
    IsRefused s out
    ⊎ (IsSubmitted submit true post s out × (path ≡ codes "/digest"))
    ⊎ (IsSubmitted submit false post s out × (path ≡ codes "/operator/digest") × (lane ≡ true))

to_digest {ℓ} :
    {S : Type ℓ} (submit : Submit S) (lane : Bool) (path : Bytes) (post : Post) (s : S)
    (out : Reply × S)
    → path ≡ codes "/digest"
    → IsRefused s out ⊎ IsSubmitted submit true post s out
    → IsRouted submit lane path post s out
to_digest submit lane path post s out e (inl refusal) = inl refusal
to_digest submit lane path post s out e (inr went) = inr (inl (went, e))

to_operator {ℓ} :
    {S : Type ℓ} (submit : Submit S) (lane : Bool) (path : Bytes) (post : Post) (s : S)
    (out : Reply × S)
    → path ≡ codes "/operator/digest"
    → lane ≡ true
    → IsRefused s out ⊎ IsSubmitted submit false post s out
    → IsRouted submit lane path post s out
to_operator submit lane path post s out e on (inl refusal) = inl refusal
to_operator submit lane path post s out e on (inr went) = inr (inr (went, e, on))

-- A POST is refused with nothing submitted, or it submits one whole digest: to the counted lane
-- for `/digest`, to the operator's for `/operator/digest` where that lane is enabled.
pub do_post-cases {ℓ} :
    {S : Type ℓ} (submit : Submit S) (lane : Bool) (path : Bytes) (post : Post) (s : S)
    → IsRouted submit lane path post s (do_post submit lane path post s)
unfolding do_post
do_post-cases submit lane path post s = elim (Bool-cases (bytes_eq path (codes "/digest"))) [
  | inl digest ↦ rw digest (
      to_digest submit lane path post s (post_digest submit true post s)
        ((bytes_eq_iff path (codes "/digest")).0 digest) (post_digest-cases submit true post s))
  | inr other ↦ rw other (elim (Bool-cases (bytes_eq path (codes "/operator/digest"))) [
    | inr unknown ↦ rw unknown (inl (omega arith, omega arith, refl))
    | inl operator ↦ rw operator (elim (Bool-cases lane) [
      | inr off ↦ rw off (inl (omega arith, omega arith, refl))
      | inl on ↦ rw on (
          to_operator submit true path post s (post_digest submit false post s)
            ((bytes_eq_iff path (codes "/operator/digest")).0 operator) refl
            (post_digest-cases submit false post s))
    ])
  ])
]
