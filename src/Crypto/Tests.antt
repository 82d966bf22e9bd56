-- ===== src/Crypto/Tests.antt =====
-- Tests of the digests.
use coter.Base.{List, Bytes, splice, ◌≡◌, refl, [], ◌∷◌}
use coter.Crypto.Md5.{sum, update, init, finish, absorb}
use coter.Crypto.Md5.Digest.{digest, update_all, joined, md5_of_pieces}
use coter.Crypto.Md5.Rounds.{transform, steps}

empty_digest :
    sum []
    ≡ 212 ∷ 29 ∷ 140 ∷ 217 ∷ 143 ∷ 0 ∷ 178 ∷ 4 ∷ 233 ∷ 128 ∷ 9 ∷ 152 ∷ 236 ∷ 248 ∷ 66 ∷ 126 ∷ []
unfolding sum update init finish absorb transform steps splice
empty_digest = refl

abbrev two_pieces : List Bytes
two_pieces = (97 ∷ []) ∷ (98 ∷ 99 ∷ []) ∷ []

md5_of_pieces_example : (finish (update_all init two_pieces)).0 ≡ digest (joined two_pieces)
md5_of_pieces_example = md5_of_pieces two_pieces
