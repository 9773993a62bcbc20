-- ===== src/Tests/Steps.antt =====
-- Clients whose runs are followed step by step.
use eshetcpp.Base.{ℕ, refl, ◌≤◌, [], ◌∷◌, arith}
use eshetcpp.Base.Text.{codes}
use eshetcpp.Client.State.{Client, Command, ResultChannel, results}
use eshetcpp.Client.Start.{new_client}
use eshetcpp.Client.Loop.{run}
use eshetcpp.Client.Steps.Code.{Ends}
use eshetcpp.Client.Answers.{answers}
use eshetcpp.Client.Answers.Runs.{run-answers}
use eshetcpp.Client.Sent.Whole.{IsWhole, nothing, run-IsWhole}
use eshetcpp.Tests.Setting.{one_byte, takes_all}
use eshetcpp.Tests.Runs.{started}

-- A get on the channel 7 is awaited, and another is queued.
abbrev asking : Client ℕ
asking = record started {
  next_id = 1;
  reply_channels = (0, results (ResultChannel.user 7)) ∷ [];
  on_command = Command.get (codes "/on") (ResultChannel.user 7) ∷ [];
}

run-answers_example :
    Ends (λ d. answers (results (ResultChannel.user 7)) d.effects ≤ 2) (run asking)
unfolding new_client
run-answers_example = run-answers (results (ResultChannel.user 7)) asking (omega arith)

run-IsWhole_example : Ends (IsWhole asking) (run asking)
unfolding new_client
run-IsWhole_example = run-IsWhole (λ calls size. refl) asking (omega arith) (nothing refl)
