-- ===== src/Stats/Authority/Decode/RoundTrip.antt =====
-- Reading an encoded list of candidates gives the list back.
use thorflux.Base.{
  ℕ, ◌^◌, ◌<◌, ◌≡◌, refl, subst, Bool, true, false, not, Option, some, List, [], ◌∷◌, ◌++◌, arith,
  length, All, length-append, u64_mod, u64,
}
use mathlib.Core.List.{append_assoc}
use thorflux.Chain.{ok}
use thorflux.Stats.Outcome.{done, ◌>>=◌, slice, slice_from}
use thorflux.Stats.Slices.{slice-first, slice-second, slice_from-append}
use thorflux.Stats.Authority.{Candidate}
use thorflux.Stats.Authority.Decode.{
  same_text, zeros, read_candidate, read_candidates, check_type, list_all_candidates,
}
use thorflux.Stats.Authority.Decode.Digits.{hex, length-hex, set_string-hex, decode_string-hex}

-- The contract's words: an address behind 24 zeros, and a number.
unfoldable pub address_word : ℕ → List ℕ → List ℕ
address_word a rest = zeros 24 ++ (hex 40 a ++ rest)

unfoldable pub number_word : ℕ → List ℕ → List ℕ
number_word n rest = hex 64 n ++ rest

address_word_lem :
    (a : ℕ) (rest : List ℕ)
    → (slice (address_word a rest) 24 64 ≡ done (hex 40 a))
      × (slice_from (address_word a rest) 64 ≡ done rest)
unfolding address_word
address_word_lem a rest =
    let short : length (hex 40 a) ≡ 40 = length-hex 40 a in
    (
      slice-second (zeros 24) (hex 40 a) rest 24 64 refl (omega arith),
      subst (λ l. slice_from l 64 ≡ done rest) (append_assoc (zeros 24) (hex 40 a) rest)
          (slice_from-append (zeros 24 ++ hex 40 a) rest 64
            (omega (arith, length-append (zeros 24) (hex 40 a)))),
    )

number_word_lem :
    (n : ℕ) (rest : List ℕ)
    → (slice (number_word n rest) 0 64 ≡ done (hex 64 n))
      × (slice_from (number_word n rest) 64 ≡ done rest)
unfolding number_word
number_word_lem n rest = (
  slice-first (hex 64 n) rest 64 (length-hex 64 n),
  slice_from-append (hex 64 n) rest 64 (length-hex 64 n),
)

abbrev pub bit : Bool → ℕ
bit true = 1
bit false = 0

active_lem : (b : Bool) → not (same_text (hex 64 (bit b)) (zeros 64)) ≡ b
active_lem true = refl
active_lem false = refl

abbrev pub encode_candidate : Candidate → List ℕ → List ℕ
encode_candidate c rest =
    address_word c.master
      (address_word c.endorsor (number_word c.identity (number_word (bit c.active) rest)))

abbrev pub encode_candidates : List Candidate → List ℕ → List ℕ
encode_candidates [] rest = rest
encode_candidates (c ∷ cs) rest = encode_candidate c (encode_candidates cs rest)

abbrev pub IsCandidate : Candidate → Type 0
IsCandidate c = (c.master < 2 ^ 160) × (c.endorsor < 2 ^ 160) × (c.identity < 16 ^ 64)

-- `thor.ParseAddress` reads the forty digits of an address.
abbrev pub Parses : (List ℕ → Option ℕ) → Type 0
Parses parse_address = (a : ℕ) → a < 2 ^ 160 → parse_address (hex 40 a) ≡ some a

module _ (parse_address : List ℕ → Option ℕ) (parses : Parses parse_address) where
  read_candidate-encode :
      (c : Candidate) (rest : List ℕ)
      → IsCandidate c
      → read_candidate parse_address (encode_candidate c rest) ≡ done (c, rest)
  unfolding read_candidate ◌>>=◌
  read_candidate-encode c rest (m, e, i) =
      let text4 = number_word (bit c.active) rest in
      let text3 = number_word c.identity text4 in
      let text2 = address_word c.endorsor text3 in
      let (s1, r1) = address_word_lem c.master text2 in
      let (s2, r2) = address_word_lem c.endorsor text3 in
      let (s3, r3) = number_word_lem c.identity text4 in
      let (s4, r4) = number_word_lem (bit c.active) rest in
      let one = parses c.master m in
      let two = parses c.endorsor e in
      let three = decode_string-hex c.identity i in
      rw (s1, one, r1, s2, two, r2, s3, r3, s4, r4)
        (λ k. done (record c { identity = three k; active = active_lem c.active k }, rest))

  read_candidates-encode :
      (cs : List Candidate) (rest : List ℕ)
      → All IsCandidate cs
      → read_candidates parse_address (length cs) (encode_candidates cs rest) ≡ done cs
  unfolding read_candidates ◌>>=◌
  read_candidates-encode [] rest h = refl
  read_candidates-encode (c ∷ cs) rest h =
      rw
        (
          read_candidate-encode c (encode_candidates cs rest) h.0,
          read_candidates-encode cs rest h.1,
        )
        refl

-- The text of the second result of the call, `0x` and the words 32, the number of candidates, and
-- four words for each candidate.
abbrev pub encode_list : List Candidate → List ℕ → List ℕ
encode_list cs rest =
    b'0' ∷ b'x' ∷ number_word 32 (number_word (length cs) (encode_candidates cs rest))

-- Where ParseAddress reads the digits of every 160-bit address: from the text that holds 32, the number
-- of candidates and then for each of them its master and endorsor, 160 bits each, its identity of 256
-- bits and its active flag, listAllCandidates returns these candidates in order; whatever follows in
-- the text, and stands in the other results, does not matter.
pub list_all_candidates-encode_list :
    (parse_address : List ℕ → Option ℕ) (cs : List Candidate) (first rest : List ℕ)
    (more : List (List ℕ))
    → Parses parse_address
    → All IsCandidate cs
    → length cs < u64_mod
    → list_all_candidates parse_address (ok (first ∷ encode_list cs rest ∷ more)) ≡ done cs
unfolding list_all_candidates check_type ◌>>=◌
list_all_candidates-encode_list parse_address cs first rest more parses valid few =
    let body = encode_candidates cs rest in
    let text2 = number_word (length cs) body in
    let text1 = number_word 32 text2 in
    let start : slice_from (b'0' ∷ b'x' ∷ text1) 2 ≡ done text1 =
      slice_from-append (b'0' ∷ b'x' ∷ []) text1 2 refl in
    let (s1, r1) = number_word_lem 32 text2 in
    let (s2, r2) = number_word_lem (length cs) body in
    let amount = set_string-hex (length cs) (omega arith) in
    let exact : u64 (length cs) ≡ length cs = omega arith in
    rw (start, s1, r1, s2, amount, r2, exact)
      (read_candidates-encode parse_address parses cs rest valid)
