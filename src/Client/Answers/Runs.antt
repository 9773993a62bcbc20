-- ===== src/Client/Answers/Runs.antt =====
-- The answers to the commands of the program, where `run` of include/eshet.hpp ends.
use eshetcpp.Base.{◌+◌, ◌≤◌, arith}
use eshetcpp.Msgpack.{Msgpack}
use eshetcpp.Client.State.{Client, Network, ReplyChannel}
use eshetcpp.Client.Loop.{run}
use eshetcpp.Client.Steps.{Reaches}
use eshetcpp.Client.Steps.Code.{IdFits, Ends, Ends-map}
use eshetcpp.Client.Steps.Loop.{run-Reaches}
use eshetcpp.Client.Answers.{answers, pending, asked, coming, total}
use eshetcpp.Client.Answers.Preserved.{Reaches-total}

module _ {Obj : Type 0} ⦃m : Msgpack Obj⦄ ⦃net : Network⦄ where
  -- However `run` ends, and however often the connection was lost meanwhile, the replies pushed to a
  -- result channel of the program are at most those pushed before, one for each entry that waited for
  -- a reply to it, and one for each command naming it that was queued or came during the run.
  pub run-answers :
      (to : ReplyChannel) (c : Client Obj)
      → IdFits c
      → Ends
          (λ d.
            answers to d.effects
            ≤ answers to c.effects
              + pending to c.reply_channels
              + asked to c.on_command
              + coming to c.turns)
          (run c)
  run-answers to c f =
      Ends-map (λ d. Reaches c d × IdFits d) (λ d. answers to d.effects ≤ total to c) (run c)
        (λ d r. omega (arith, Reaches-total to r.0)) (run-Reaches c f)
