-- ===== src/Protocol/RoundTrip.antt =====
-- Requests as a client writes them, for `parse_request` of src/networking/protocol.cpp.
use trader_two.Prelude.{
  ℕ, ◌+◌, ◌^◌, ◌<◌, ◌==◌, ==_iff, ◌≡◌, refl, ap, ◌∙◌, true, if◌then◌else◌, String, ℤ, pos, pos_part,
  neg_part, List, [], ◌∷◌, Option, none, some, arith,
}
use trader_two.Order.{Side, buy, sell, TimeInForce, gtc, ioc, fok, limit}
use trader_two.Text.{Bytes, codes, print_u64, print_i64}
use trader_two.Protocol.Tokens.{to_lower, ieq, tokens, signed_of}
use trader_two.Protocol.Lines.{Splits, tokens-Splits, parse-print_u64, parse-print_i64}
use trader_two.Protocol.{
  ParsedRequest, no_error, Parsed, new, cancel, modify, quote, ping, number, tif_of, parse_quote,
  parse_new, parse_cancel, parse_modify, parse_tokens, parse_request,
}

-- A request of a client.
pub data Request : Type 0 where
  ping_server : Request
  quote_book : ℕ → Request
  new_order : ℕ → ℕ → Side → ℕ → ℕ → Option TimeInForce → Request
  cancel_order : ℕ → ℕ → Request
  modify_order : ℕ → ℕ → ℕ → ℤ → Request

abbrev pub keyword : Request → Bytes
keyword ping_server = codes "PING"
keyword (quote_book i) = codes "QUOTE"
keyword (new_order i t s p q tif) = codes "NEW"
keyword (cancel_order i o) = codes "CANCEL"
keyword (modify_order i o q p) = codes "MODIFY"

abbrev pub side_number : Side → ℕ
side_number buy = 0
side_number sell = 1

abbrev pub tif_words : Option TimeInForce → List Bytes
tif_words none = []
tif_words (some gtc) = codes "GTC" ∷ []
tif_words (some ioc) = codes "IOC" ∷ []
tif_words (some fok) = codes "FOK" ∷ []

-- What is written behind the keyword.
abbrev pub arguments : Request → List Bytes
arguments ping_server = []
arguments (quote_book i) = print_u64 i ∷ []
arguments (new_order i t s p q tif) =
    print_u64 i
    ∷ print_u64 t
    ∷ print_u64 (side_number s)
    ∷ print_u64 p
    ∷ print_u64 q
    ∷ tif_words tif
arguments (cancel_order i o) = print_u64 i ∷ print_u64 o ∷ []
arguments (modify_order i o q p) = print_u64 i ∷ print_u64 o ∷ print_u64 q ∷ print_i64 p ∷ []

-- Identifiers are below 2 ^ 64, and prices and quantities fit an `int64_t`.
abbrev pub Fits : Request → Type 0
Fits ping_server = Unit {0}
Fits (quote_book i) = i < 2 ^ 64
Fits (new_order i t s p q tif) = (i < 2 ^ 64) × (t < 2 ^ 64) × (p < 2 ^ 63) × (q < 2 ^ 63)
Fits (cancel_order i o) = (i < 2 ^ 64) × (o < 2 ^ 64)
Fits (modify_order i o q p) =
    (i < 2 ^ 64) × (o < 2 ^ 64) × (q < 2 ^ 63) × (pos_part p + neg_part p < 2 ^ 63)

abbrev pub tif_or_gtc : Option TimeInForce → TimeInForce
tif_or_gtc none = gtc
tif_or_gtc (some t) = t

-- What the request means.
abbrev pub asked : Request → ParsedRequest → ParsedRequest
asked ping_server out = record out { command = ping }
asked (quote_book i) out = record out { command = quote; instrument = i }
asked (new_order i t s p q tif) out = record out {
  command = new;
  instrument = i;
  trader_id = t;
  side = s;
  type = limit;
  tif = tif_or_gtc tif;
  price = pos p;
  qty = pos q;
}
asked (cancel_order i o) out = record out { command = cancel; instrument = i; order_id = o }
asked (modify_order i o q p) out = record out {
  command = modify;
  instrument = i;
  order_id = o;
  qty = pos q;
  price = p;
}

-- Words that agree without case agree alike with a third.
ieq_same : (s t u : Bytes) → ieq s t ≡ true → ieq s u ≡ ieq t u
unfolding ieq
ieq_same [] [] u h = refl
ieq_same [] (b ∷ t) u h = cc
ieq_same (a ∷ s) [] u h = cc
ieq_same (a ∷ s) (b ∷ t) [] h = refl
ieq_same (a ∷ s) (b ∷ t) (c ∷ u) h =
    ground (arith, ==_iff (to_lower a) (to_lower b), ieq_same s t u)

signed_small : (v : ℕ) → v < 2 ^ 63 → signed_of v ≡ pos v
unfolding signed_of
signed_small v h = ground arith

number_read :
    (n : ℕ) (message : String) (out : ParsedRequest) (next : ℕ → Parsed)
    → n < 2 ^ 64
    → number (print_u64 n) message out next ≡ next n
unfolding number
number_read n message out next h = rw (parse-print_u64 n h, number) refl

tif_read : (tif : Option TimeInForce) → tif_of (tif_words tif) ≡ some (tif_or_gtc tif)
unfolding tif_of
tif_read none = refl
tif_read (some gtc) = refl
tif_read (some ioc) = refl
tif_read (some fok) = refl

side_read : (s : Side) → (if side_number s == 0 then buy else sell) ≡ s
side_read buy = refl
side_read sell = refl

side_number-lt : (s : Side) → side_number s < 2 ^ 64
side_number-lt buy = omega arith
side_number-lt sell = omega arith

-- The case of the first word does not matter.
parse_tokens_same :
    (cmd k : Bytes) (args : List Bytes) (out : ParsedRequest)
    → ieq cmd k ≡ true
    → parse_tokens (cmd ∷ args) out ≡ parse_tokens (k ∷ args) out
unfolding parse_tokens
parse_tokens_same cmd k args out h =
    rw
      (
        ieq_same cmd k (codes "PING") h,
        ieq_same cmd k (codes "QUOTE") h,
        ieq_same cmd k (codes "NEW") h,
        ieq_same cmd k (codes "CANCEL") h,
        ieq_same cmd k (codes "MODIFY") h,
      )
      refl

parse_keyword :
    (r : Request) (out : ParsedRequest)
    → Fits r
    → parse_tokens (keyword r ∷ arguments r) out ≡ (asked r out, no_error)
unfolding parse_tokens parse_quote parse_new parse_cancel parse_modify
parse_keyword ping_server out fits = refl
parse_keyword (quote_book i) out fits = number_read i _ out _ fits
parse_keyword (new_order i t s p q tif) out (hi, ht, hp, hq) =
    number_read i _ out _ hi
    ∙ number_read t _ out _ ht
    ∙ number_read (side_number s) _ out _ (side_number-lt s)
    ∙ number_read p _ out _ (omega arith)
    ∙ number_read q _ out _ (omega arith)
    ∙ rw (tif_read tif, side_read s, signed_small p hp, signed_small q hq) refl
parse_keyword (cancel_order i o) out (hi, ho) = number_read i _ out _ hi ∙ number_read o _ out _ ho
parse_keyword (modify_order i o q p) out (hi, ho, hq, hp) =
    number_read i _ out _ hi
    ∙ number_read o _ out _ ho
    ∙ number_read q _ out _ (omega arith)
    ∙ rw (parse-print_i64 p, signed_small q hq) refl

not_empty : {t : Bytes} {ts : List Bytes} → Splits [] (t ∷ ts) → ⊥
unfolding tokens
not_empty h = let e = tokens-Splits h in cc

-- A line that a client writes for a request, with its keyword in any case, numbers in decimal that
-- fit what they are parsed into, and any white space in front of each word, between them and behind
-- the last, parses without an error to that request.
pub parse_request-reads :
    (r : Request) (cmd line : Bytes) (out : ParsedRequest)
    → Fits r
    → ieq cmd (keyword r) ≡ true
    → Splits line (cmd ∷ arguments r)
    → parse_request line out ≡ (asked r out, no_error)
unfolding parse_request
parse_request-reads r cmd [] out fits same splits = absurd (not_empty splits)
parse_request-reads r cmd (c ∷ line) out fits same splits =
    ap (λ (ts : List Bytes). parse_tokens ts out) (tokens-Splits splits)
    ∙ parse_tokens_same cmd (keyword r) (arguments r) out same
    ∙ parse_keyword r out fits
