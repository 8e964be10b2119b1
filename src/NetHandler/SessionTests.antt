-- ===== src/NetHandler/SessionTests.antt =====
-- Whole connections at concrete data.
use net_calc.Prelude.{ℕ, ◌≡◌, ◌≢◌, refl, arith, inl, inr, [], ◌∷◌, ◌++◌, replicate}
use net_calc.Words.{success, error, undefined}
use net_calc.FileIo.Stream.{Output, piece}
use net_calc.NetHandler.Packed.{NetHeader, header_bytes, net_header_bytes, swap_bytes}
use net_calc.NetHandler.Messages.{error_header, answer_header}
use net_calc.NetHandler.Stream.{ended, out_of_fuel}
use net_calc.NetHandler.Loop.{file_bytes}
use net_calc.NetHandler.Answers.{answer}
use net_calc.NetHandler.Connection.{read_net_header, after_recv}
use net_calc.NetHandler.Session.{handle_new_connection_answers, handle_new_connection-Unwelcome}
use net_calc.NetHandler.Connection.{handle_new_connection}
use net_calc.NetHandler.Sizes.{answer_header-answer}
use net_calc.NetHandler.Total.{handle_new_connection_total}
use net_calc.NetHandler.Samples.{header_for, sum, seven, outlet, sum_solved}

-- The length of the name is 3, or `name_len`.
abbrev greeting : ℕ → NetHeader
greeting name_len = record {
  header_size = 805306368;
  file_name_len = name_len;
  file_size = 0;
  filename = 97 ∷ 98 ∷ 99 ∷ replicate 29 0;
}

partial_header : read_net_header (piece (0 ∷ 0 ∷ 0 ∷ []) ∷ piece (48 ∷ []) ∷ []) ≡ undefined
unfolding read_net_header after_recv
partial_header = refl

handle_new_connection_answers_example :
    (out : Output) × (handle_new_connection
        (piece (net_header_bytes (greeting 50331648))
          ∷ piece (header_bytes (header_for 1 0) ++ (file_bytes (sum ∷ []) ++ []))
          ∷ [])
        outlet
      ≡ ended success [] out)
    × (out.written ≡ answer (greeting 50331648) (header_for 1 0) (sum ∷ []) (seven ∷ []))
handle_new_connection_answers_example =
    handle_new_connection_answers (greeting 50331648) (header_for 1 0) (sum ∷ []) (seven ∷ []) [] []
      outlet
      ((omega arith, omega arith, omega arith, refl), refl, omega arith, 3, refl, omega arith)
      (
        (omega arith, omega arith, omega arith, omega arith, omega arith, omega arith),
        refl,
        omega arith,
        omega arith,
      )
      refl (omega arith)
      (
        (omega arith, omega arith, omega arith, omega arith, omega arith, omega arith, omega arith),
        sum_solved,
        tt,
      )
      tt

handle_new_connection-Unwelcome_example :
    (out : Output) × (handle_new_connection
        (piece (net_header_bytes (greeting 838860800) ++ (5 ∷ [])) ∷ [])
        outlet
      ≡ ended error (piece (5 ∷ []) ∷ []) out)
    × (out.written ≡ net_header_bytes error_header)
handle_new_connection-Unwelcome_example =
    handle_new_connection-Unwelcome (greeting 838860800) (5 ∷ []) [] outlet
      (omega arith, omega arith, omega arith, refl) (inr (inl (omega arith))) tt

answer_header-answer_example :
    (swap_bytes 4 (answer_header (greeting 50331648) 1).header_size ≡ 48)
    × ((answer_header (greeting 50331648) 1).file_name_len ≡ 50331648)
    × (swap_bytes 8 (answer_header (greeting 50331648) 1).file_size ≡ 89)
answer_header-answer_example =
    answer_header-answer (greeting 50331648) (header_for 1 0) (sum ∷ []) (seven ∷ [])
      (
        (omega arith, omega arith, omega arith, omega arith, omega arith, omega arith),
        refl,
        omega arith,
        omega arith,
      )
      refl
      (
        (omega arith, omega arith, omega arith, omega arith, omega arith, omega arith, omega arith),
        sum_solved,
        tt,
      )
      (omega arith)

-- A network header arrives and no file after it.
handle_new_connection_total_example :
    handle_new_connection (piece (net_header_bytes (greeting 50331648)) ∷ []) outlet ≢ out_of_fuel
handle_new_connection_total_example =
    handle_new_connection_total (piece (net_header_bytes (greeting 50331648)) ∷ []) outlet
