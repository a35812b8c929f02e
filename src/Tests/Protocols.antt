-- ===== src/Tests/Protocols.antt =====
-- Lines and buffers that the theorems are applied to.
use trader_two.Prelude.{pos, true, ◌≡◌, refl, List, [], ◌∷◌, ◌++◌, arith}
use trader_two.Text.{Bytes, codes, print_u64, print_i64}
use trader_two.Protocol.Tokens.{is_space, ieq, tokens}
use trader_two.Protocol.Lines.{Splits, end, word, print_u64-IsWord}
use trader_two.Protocol.RoundTrip.{quote_book, asked, parse_request-reads}
use trader_two.Protocol.Refusals.{Answers, IsRequest, parse_request-Answers}
use trader_two.Protocol.{
  blank_request, no_error, parse_request, format_trade, format_quote, format_submit_reply,
  format_error,
}
use trader_two.Gateway.{process_buffer, client_loop}
use trader_two.Gateway.Chunks.{concat, client_loop-eq-process_buffer}
use trader_two.MarketData.{blank_trade}
use trader_two.Tests.Matches.{machine}
use trader_two.Tests.Engines.{listed}

-- A quote in small letters, with a carriage return at its end.
abbrev line : Bytes
line = codes " quote  12" ++ (13 ∷ [])

line-Splits : Splits line (codes "quote" ∷ print_u64 12 ∷ [])
unfolding is_space print_u64
line-Splits =
    word (codes " ") (codes "quote") (codes "  12" ++ (13 ∷ [])) refl (refl, tt)
      (refl, (refl, (refl, (refl, (refl, tt))))) refl
      (word (codes "  ") (print_u64 12) (13 ∷ []) refl (refl, (refl, tt)) (print_u64-IsWord 12) refl
        (end (refl, tt)))

quote_keyword : ieq (codes "quote") (codes "QUOTE") ≡ true
unfolding ieq
quote_keyword = refl

parse_request-reads_example :
    parse_request line blank_request ≡ (asked (quote_book 12) blank_request, no_error)
parse_request-reads_example =
    parse_request-reads (quote_book 12) (codes "quote") line blank_request (omega arith)
      quote_keyword line-Splits

parse_request-Answers_example :
    Answers
      (IsRequest (tokens (codes "CANCEL 1 x")))
      blank_request
      (parse_request (codes "CANCEL 1 x") blank_request)
parse_request-Answers_example = parse_request-Answers (codes "CANCEL 1 x") blank_request

-- Two lines in three chunks.
abbrev chunks : List Bytes
chunks = codes "PI" ∷ codes "NG\nNEW 1 7 " ∷ codes "0 100 5\nQUO" ∷ []

client_loop-eq-process_buffer_example :
    client_loop machine (λ k. pos k) chunks listed
    ≡ process_buffer machine (λ k. pos k) (concat chunks) listed
client_loop-eq-process_buffer_example =
    client_loop-eq-process_buffer machine (λ k. pos k) chunks listed

quote_reply_test : format_quote 1 (pos 99) (pos 5) (pos 100) (pos 2) ≡ codes "QUOTE 1 99 5 100 2\n"
unfolding format_quote print_i64 print_u64
quote_reply_test = refl

submit_reply_test : format_submit_reply 3 4 "FILLED" ≡ codes "OK FILLED 3 4\n"
unfolding format_submit_reply print_u64
submit_reply_test = refl

trade_reply_test : format_trade blank_trade ≡ codes "TRADE 0 0 0 0\n"
unfolding format_trade print_i64 print_u64
trade_reply_test = refl

error_reply_test : format_error "bad qty" ≡ codes "ERR bad qty\n"
unfolding format_error
error_reply_test = refl
