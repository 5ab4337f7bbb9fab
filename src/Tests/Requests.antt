-- ===== src/Tests/Requests.antt =====
-- Requests to the HTTP server.
use opentimestamps_server.Prelude.{
  ℕ, suc, ◌≡◌, refl, true, none, some, [], ◌∷◌, ◌++◌, bytes_eq, codes, arith,
}
use opentimestamps_server.Stamper.Pending.{pending_confirmation}
use opentimestamps_server.Rpc.{Post, Submit, Asked, do_post, get_timestamp}
use opentimestamps_server.Rpc.Digest.{IsRouted, do_post-cases}
use opentimestamps_server.Rpc.Hex.{hexlify, IsAnswer, get_timestamp-hexlify}

-- A calendar that counts its submissions and serves the digest itself.
abbrev pub count_submit : Submit ℕ
count_submit digest counted n = (some digest, suc n)

abbrev pub upload : Post
upload = record { content_length = some (codes " 3"); sent = codes "abcd" }

do_post-cases_example :
    IsRouted count_submit true
      (codes "/operator/digest")
      upload
      4
      (do_post count_submit true (codes "/operator/digest") upload 4)
do_post-cases_example = do_post-cases count_submit true (codes "/operator/digest") upload 4

-- What the handler answers to that upload: its first three bytes were submitted.
upload_submitted : (do_post count_submit true (codes "/operator/digest") upload 4).1 ≡ 5
unfolding do_post bytes_eq
upload_submitted = refl

abbrev pub asking : Asked
asking = record {
  timestamps = λ c. none;
  is_pending = λ c. some pending_confirmation;
  b2lx = λ c. c;
}

get_timestamp-hexlify_example :
    IsAnswer asking
      (171 ∷ 5 ∷ [])
      (get_timestamp asking (codes "/timestamp/" ++ hexlify (171 ∷ 5 ∷ [])))
get_timestamp-hexlify_example =
    get_timestamp-hexlify asking (171 ∷ 5 ∷ []) (omega arith, (omega arith, tt))
