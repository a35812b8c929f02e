-- ===== src/Protocol.antt =====
-- include/tt/networking/protocol.hpp and src/networking/protocol.cpp: the requests of the text protocol,
-- `parse_request`, and the replies. A line is a list of bytes. `ParsedRequest& out` is an argument, and
-- what the call leaves there is returned beside the error.
pub mod Tokens
pub mod Lines
pub mod Numbers
pub mod RoundTrip
pub mod Refusals
use trader_two.Prelude.{
  ℕ, zero, suc, ◌==◌, ltb, ℤ, pos, negsuc, ◌-◌, Bool, true, false, if◌then◌else◌, List, [], ◌∷◌,
  ◌++◌, Option, none, some, String, take,
}
use trader_two.Types.{invalid_order_id, invalid_instrument_id}
use trader_two.Order.{Side, buy, sell, OrderType, limit, TimeInForce, gtc, ioc, fok, Trade}
use trader_two.Text.{Bytes, codes, print_u64, print_i64}
use Tokens.{tokens, ieq, parse_u64, parse_i64, signed_of}

pub data InboundCommand : Type 0 where
  unknown new cancel modify quote ping : InboundCommand

pub record ParsedRequest : Type 0 where
  pub command : InboundCommand
  pub instrument : ℕ
  pub order_id : ℕ
  pub trader_id : ℕ
  pub side : Side
  pub type : OrderType
  pub tif : TimeInForce
  pub price : ℤ
  pub qty : ℤ

-- `ParsedRequest{}`
abbrev pub blank_request : ParsedRequest
blank_request = record {
  command = unknown;
  instrument = invalid_instrument_id;
  order_id = invalid_order_id;
  trader_id = 0;
  side = buy;
  type = limit;
  tif = gtc;
  price = pos 0;
  qty = pos 0;
}

pub record ParseError : Type 0 where
  pub ok : Bool
  pub message : String

-- `ParseError{}`
abbrev pub no_error : ParseError
no_error = record { ok = true; message = "" }

abbrev pub Parsed : Type 0
Parsed = ParsedRequest × ParseError

-- `err.ok = false; err.message = …; return err`
abbrev pub refuse : String → ParsedRequest → Parsed
refuse message out = (out, record { ok = false; message = message })

-- A number of the line, or an error about it.
unfoldable pub number : Bytes → String → ParsedRequest → (ℕ → Parsed) → Parsed
number token message out next = elim (parse_u64 token) [
  | none ↦ refuse message out
  | some v ↦ next v
]

-- The time in force behind the five numbers, if any.
unfoldable pub tif_of : List Bytes → Option TimeInForce
unfolding ieq
tif_of [] = some gtc
tif_of (t ∷ rest) =
    if ieq t (codes "IOC")
    then some ioc
    else if ieq t (codes "FOK")
    then some fok
    else if ieq t (codes "GTC")
    then some gtc
    else none

unfoldable pub parse_quote : List Bytes → ParsedRequest → Parsed
parse_quote [] out = refuse "missing arguments" out
parse_quote (i ∷ rest) out =
    number i "bad instrument" out
      λ instr. (record out { instrument = instr; command = quote }, no_error)

-- What `NEW` writes to `out` in front of the time in force.
abbrev pub new_fields : ℕ → ℕ → ℕ → ℕ → ℕ → ParsedRequest → ParsedRequest
new_fields instr trader side_u price qty out = record out {
  instrument = instr;
  trader_id = trader;
  side = if side_u == 0 then buy else sell;
  type = limit;
  price = signed_of price;
  qty = signed_of qty;
  tif = gtc;
}

unfoldable pub finish_new : Option TimeInForce → ParsedRequest → Parsed
finish_new none out = refuse "bad tif" out
finish_new (some t) out = (record out { tif = t; command = new }, no_error)

unfoldable pub parse_new : List Bytes → ParsedRequest → Parsed
unfolding finish_new
parse_new (i ∷ t ∷ s ∷ p ∷ q ∷ rest) out = number i "bad instrument" out λ instr.
    number t "bad trader" out λ trader. number s "bad side" out λ side_u.
      number p "bad price" out λ price.
        number q "bad qty" out
          λ qty. finish_new (tif_of rest) (new_fields instr trader side_u price qty out)
parse_new _ out = refuse "missing arguments" out

unfoldable pub parse_cancel : List Bytes → ParsedRequest → Parsed
parse_cancel (i ∷ o ∷ rest) out = number i "bad instrument" out λ instr.
    number o "bad order_id" out
      λ oid. (record out { instrument = instr; order_id = oid; command = cancel }, no_error)
parse_cancel _ out = refuse "missing arguments" out

-- The price of `MODIFY` may have a sign.
unfoldable pub finish_modify : Option ℤ → ℕ → ℕ → ℕ → ParsedRequest → Parsed
finish_modify none instr oid qty_u out = refuse "bad price" out
finish_modify (some price) instr oid qty_u out = (
  record out {
    instrument = instr;
    order_id = oid;
    qty = signed_of qty_u;
    price = price;
    command = modify;
  },
  no_error,
)

unfoldable pub parse_modify : List Bytes → ParsedRequest → Parsed
unfolding finish_modify
parse_modify (i ∷ o ∷ q ∷ p ∷ rest) out = number i "bad instrument" out λ instr.
    number o "bad order_id" out
      λ oid. number q "bad qty" out λ qty_u. finish_modify (parse_i64 p) instr oid qty_u out
parse_modify _ out = refuse "missing arguments" out

-- From the first token on.
unfoldable pub parse_tokens : List Bytes → ParsedRequest → Parsed
unfolding ieq
parse_tokens [] out = refuse "no tokens" out
parse_tokens (cmd ∷ args) out =
    if ieq cmd (codes "PING")
    then (record out { command = ping }, no_error)
    else if ieq cmd (codes "QUOTE")
    then parse_quote args out
    else if ieq cmd (codes "NEW")
    then parse_new args out
    else if ieq cmd (codes "CANCEL")
    then parse_cancel args out
    else if ieq cmd (codes "MODIFY")
    then parse_modify args out
    else refuse "unknown command" out

unfoldable pub parse_request : Bytes → ParsedRequest → Parsed
parse_request [] out = refuse "empty line" out
parse_request (c ∷ s) out = parse_tokens (tokens (c ∷ s)) out

abbrev pub space : ℕ
space = 32

abbrev pub newline : ℕ
newline = 10

-- `snprintf` into a buffer of 128 bytes.
unfoldable pub format_submit_reply : ℕ → ℕ → String → Bytes
format_submit_reply id seq status = take 127 (
    codes "OK "
    ++ (codes status ++ (space ∷ (print_u64 id ++ (space ∷ (print_u64 seq ++ (newline ∷ [])))))))

-- A buffer of 160 bytes holds the longest line.
unfoldable pub format_trade : Trade → Bytes
format_trade t =
    codes "TRADE "
    ++ (print_u64 t.buy_order_id
        ++ (space
            ∷ (print_u64 t.sell_order_id
                ++ (space
                    ∷ (print_i64 t.price ++ (space ∷ (print_i64 t.quantity ++ (newline ∷ []))))))))

unfoldable pub format_quote : ℕ → ℤ → ℤ → ℤ → ℤ → Bytes
format_quote id bid bid_qty ask ask_qty =
    codes "QUOTE "
    ++ (print_u64 id
        ++ (space
            ∷ (print_i64 bid
                ++ (space
                    ∷ (print_i64 bid_qty
                        ++ (space
                            ∷ (print_i64 ask
                                ++ (space ∷ (print_i64 ask_qty ++ (newline ∷ []))))))))))

unfoldable pub format_error : String → Bytes
format_error msg = codes "ERR " ++ (codes msg ++ (newline ∷ []))
