-- ===== src/Protocol/Refusals.antt =====
-- Which lines `parse_request` of src/networking/protocol.cpp takes, and what it does to `out` otherwise.
use trader_two.Prelude.{
  ℕ, ◌≡◌, ◌↔◌, ◌⊎◌, inl, inr, refl, Bool, true, false, if◌then◌else◌, List, [], ◌∷◌, String,
  Bool-cases,
}
use trader_two.Text.{Bytes, codes}
use trader_two.Protocol.Tokens.{ieq, tokens, parse_i64}
use trader_two.Protocol.Numbers.{IsNumber, IsSigned, parse_u64-cases, parse_i64-cases}
use trader_two.Protocol.{
  ParsedRequest, no_error, Parsed, refuse, number, tif_of, parse_quote, new_fields, finish_new,
  parse_new, parse_cancel, finish_modify, parse_modify, parse_tokens, parse_request,
}

abbrev pub IsTif : List Bytes → Type 0
IsTif [] = Unit {0}
IsTif (t ∷ rest) =
    (ieq t (codes "IOC") ≡ true) ⊎ (ieq t (codes "FOK") ≡ true) ⊎ (ieq t (codes "GTC") ≡ true)

abbrev pub IsQuote : List Bytes → Type 0
IsQuote [] = ⊥
IsQuote (i ∷ rest) = IsNumber i × Unit {0}

abbrev pub IsNew : List Bytes → Type 0
IsNew (i ∷ t ∷ s ∷ p ∷ q ∷ rest) =
    IsNumber i × (IsNumber t × (IsNumber s × (IsNumber p × (IsNumber q × IsTif rest))))
IsNew _ = ⊥

abbrev pub IsCancel : List Bytes → Type 0
IsCancel (i ∷ o ∷ rest) = IsNumber i × (IsNumber o × Unit {0})
IsCancel _ = ⊥

abbrev pub IsModify : List Bytes → Type 0
IsModify (i ∷ o ∷ q ∷ p ∷ rest) = IsNumber i × (IsNumber o × (IsNumber q × IsSigned p))
IsModify _ = ⊥

-- A keyword and what it wants behind it; more words do no harm.
abbrev pub IsRequest : List Bytes → Type 0
IsRequest [] = ⊥
IsRequest (cmd ∷ args) =
    if ieq cmd (codes "PING")
    then Unit {0}
    else if ieq cmd (codes "QUOTE")
    then IsQuote args
    else if ieq cmd (codes "NEW")
    then IsNew args
    else if ieq cmd (codes "CANCEL")
    then IsCancel args
    else if ieq cmd (codes "MODIFY")
    then IsModify args
    else ⊥

-- The answer is an error exactly if `P` fails, and an error leaves the command of `out`.
pub record Answers (P : Type 0) (out : ParsedRequest) (r : Parsed) : Type 0 where
  pub taken : (r.1.ok ≡ true) ↔ P
  pub command_kept : r.1.ok ≡ false → r.0.command ≡ out.command

-- An answer that hangs on the number of one word.
number-Answers :
    (P : Type 0) (s : Bytes) (message : String) (out : ParsedRequest) (next : ℕ → Parsed)
    → ((v : ℕ) → Answers P out (next v))
    → Answers (IsNumber s × P) out (number s message out next)
unfolding number
number-Answers P s message out next h = elim (parse_u64-cases s) [
  | inl (is, (v, e)) ↦
      rw (e, number)
        (record {
          taken = (λ ok. (is, (h v).taken.0 ok), λ k. (h v).taken.1 k.1);
          command_kept = (h v).command_kept;
        })
  | inr (isnt, e) ↦
      rw (e, number)
        (record { taken = (λ ok. cc, λ k. absurd (isnt k.0)); command_kept = λ k. refl })
]

missing-Answers : (message : String) (out : ParsedRequest) → Answers ⊥ out (refuse message out)
missing-Answers message out = record { taken = (λ ok. cc, λ k. absurd k); command_kept = λ k. refl }

taken-Answers : (out r : ParsedRequest) → Answers (Unit {0}) out (r, no_error)
taken-Answers out r = record { taken = (λ ok. tt, λ k. refl); command_kept = λ k. cc }

finish_new-Answers :
    (rest : List Bytes) (filled out : ParsedRequest)
    → filled.command ≡ out.command
    → Answers (IsTif rest) out (finish_new (tif_of rest) filled)
unfolding tif_of finish_new
finish_new-Answers [] filled out same = record {
  taken = (λ ok. tt, λ k. refl);
  command_kept = λ k. cc;
}
finish_new-Answers (t ∷ rest) filled out same = elim (Bool-cases (ieq t (codes "IOC"))) [
  | inl a ↦ rw a (record { taken = (λ ok. inl refl, λ k. refl); command_kept = λ k. cc })
  | inr a ↦ elim (Bool-cases (ieq t (codes "FOK"))) [
    | inl b ↦
        rw (a, b) (record { taken = (λ ok. inr (inl refl), λ k. refl); command_kept = λ k. cc })
    | inr b ↦ elim (Bool-cases (ieq t (codes "GTC"))) [
      | inl c ↦
          rw (a, b, c)
            (record { taken = (λ ok. inr (inr refl), λ k. refl); command_kept = λ k. cc })
      | inr c ↦
          rw (a, b, c) (record { taken = (λ ok. cc, λ k. no_tif k); command_kept = λ k. same })
    ]
  ]
]
  where
    no_tif : (false ≡ true) ⊎ (false ≡ true) ⊎ (false ≡ true) → false ≡ true
    no_tif (inl h) = h
    no_tif (inr (inl h)) = h
    no_tif (inr (inr h)) = h

finish_modify-Answers :
    (p : Bytes) (i o q : ℕ) (out : ParsedRequest)
    → Answers (IsSigned p) out (finish_modify (parse_i64 p) i o q out)
unfolding finish_modify
finish_modify-Answers p i o q out = elim (parse_i64-cases p) [
  | inl (is, (z, e)) ↦
      rw (e, finish_modify) (record { taken = (λ ok. is, λ k. refl); command_kept = λ k. cc })
  | inr (isnt, e) ↦
      rw (e, finish_modify)
        (record { taken = (λ ok. cc, λ k. absurd (isnt k)); command_kept = λ k. refl })
]

parse_quote-Answers :
    (args : List Bytes) (out : ParsedRequest) → Answers (IsQuote args) out (parse_quote args out)
unfolding parse_quote
parse_quote-Answers [] out = missing-Answers _ out
parse_quote-Answers (i ∷ rest) out = number-Answers (Unit {0}) i _ out _ (λ v. taken-Answers out _)

parse_new-Answers :
    (args : List Bytes) (out : ParsedRequest) → Answers (IsNew args) out (parse_new args out)
unfolding parse_new
parse_new-Answers (i ∷ t ∷ s ∷ p ∷ q ∷ rest) out = number-Answers _ i _ out _ λ instr.
    number-Answers _ t _ out _ λ trader. number-Answers _ s _ out _ λ side_u.
      number-Answers _ p _ out _ λ price.
        number-Answers _ q _ out _
          λ qty. finish_new-Answers rest (new_fields instr trader side_u price qty out) out refl
parse_new-Answers [] out = missing-Answers _ out
parse_new-Answers (i ∷ []) out = missing-Answers _ out
parse_new-Answers (i ∷ t ∷ []) out = missing-Answers _ out
parse_new-Answers (i ∷ t ∷ s ∷ []) out = missing-Answers _ out
parse_new-Answers (i ∷ t ∷ s ∷ p ∷ []) out = missing-Answers _ out

parse_cancel-Answers :
    (args : List Bytes) (out : ParsedRequest) → Answers (IsCancel args) out (parse_cancel args out)
unfolding parse_cancel
parse_cancel-Answers (i ∷ o ∷ rest) out =
    number-Answers _ i _ out _
      λ instr. number-Answers (Unit {0}) o _ out _ λ oid. taken-Answers out _
parse_cancel-Answers [] out = missing-Answers _ out
parse_cancel-Answers (i ∷ []) out = missing-Answers _ out

parse_modify-Answers :
    (args : List Bytes) (out : ParsedRequest) → Answers (IsModify args) out (parse_modify args out)
unfolding parse_modify
parse_modify-Answers (i ∷ o ∷ q ∷ p ∷ rest) out = number-Answers _ i _ out _ λ instr.
    number-Answers _ o _ out _
      λ oid. number-Answers _ q _ out _ λ qty_u. finish_modify-Answers p instr oid qty_u out
parse_modify-Answers [] out = missing-Answers _ out
parse_modify-Answers (i ∷ []) out = missing-Answers _ out
parse_modify-Answers (i ∷ o ∷ []) out = missing-Answers _ out
parse_modify-Answers (i ∷ o ∷ q ∷ []) out = missing-Answers _ out

-- A choice that the answer and the condition make alike.
if-Answers :
    (b : Bool) {P Q : Type 0} {out : ParsedRequest} {r t : Parsed}
    → Answers P out r
    → Answers Q out t
    → Answers (if b then P else Q) out (if b then r else t)
if-Answers true h k = h
if-Answers false h k = k

parse_tokens-Answers :
    (ts : List Bytes) (out : ParsedRequest) → Answers (IsRequest ts) out (parse_tokens ts out)
unfolding parse_tokens
parse_tokens-Answers [] out = missing-Answers _ out
parse_tokens-Answers (cmd ∷ args) out = if-Answers (ieq cmd (codes "PING")) (taken-Answers out _) (
    if-Answers (ieq cmd (codes "QUOTE")) (parse_quote-Answers args out) (
      if-Answers (ieq cmd (codes "NEW")) (parse_new-Answers args out) (
        if-Answers (ieq cmd (codes "CANCEL")) (parse_cancel-Answers args out) (
          if-Answers (ieq cmd (codes "MODIFY")) (parse_modify-Answers args out)
            (missing-Answers _ out)))))

-- A line parses without an error exactly if its first word is a keyword, in any case, and behind it
-- stand words enough, those that are to be numbers made of digits, the price of a modification with
-- a sign or without, and a time in force, if any, that is known; and a line that is refused leaves
-- the command of the request.
pub parse_request-Answers :
    (line : Bytes) (out : ParsedRequest)
    → Answers (IsRequest (tokens line)) out (parse_request line out)
unfolding parse_request tokens
parse_request-Answers [] out = missing-Answers _ out
parse_request-Answers (c ∷ line) out = parse_tokens-Answers (tokens (c ∷ line)) out
