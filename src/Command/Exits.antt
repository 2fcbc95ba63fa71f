-- ===== src/Command/Exits.antt =====
-- cmd/zmqcat/main.go: how the program ends.
use zmqcat.Base.{
  ◌≡◌, refl, sym, ◌||◌, Option, none, some, List, [], ◌∷◌, Text, codes, subst, text_eq, if_elim,
}
use zmqcat.Args.{parse_args}
use zmqcat.Node.{World, Action, Closer}
use zmqcat.Node.Starting.{Outcome, running, stopped, serve, join}
use zmqcat.Node.Closing.{acquired, released}
use zmqcat.Node.Releasing.{ended, serve_releases, join_releases}
use zmqcat.Command.{Parsed, parsed, exits}
use zmqcat.Command.Clients
use zmqcat.Command.Clients.{Host}
use zmqcat.Command.Nodes.{
  served, joined, run_serve, run_join, cmd_serve, cmd_join, serve_config, join_config,
}
use zmqcat.Command.Program.{Exit, client_command, run_client, run_command, main}

-- As many as were acquired were released.
abbrev IsClean : Closer → List Action → Type 0
IsClean c done = acquired c done ≡ released c done

served-ended : (w : World) (a : List Action × Outcome) → (served w a).done ≡ ended w a
unfolding served
served-ended w (done, running n) = refl
served-ended w (done, stopped x) = refl

joined-ended : (w : World) (a : List Action × Outcome) → (joined w a).done ≡ ended w a
unfolding joined
joined-ended w (done, running n) = refl
joined-ended w (done, stopped x) = refl

module _ (w : World) (c : Closer) where
  run_serve-IsClean : (p : Parsed) → IsClean c (run_serve w p).done
  unfolding run_serve
  run_serve-IsClean (exits n) = refl
  run_serve-IsClean (parsed fl rest) =
      subst (IsClean c) (sym (served-ended w (serve w (serve_config fl))))
        (serve_releases w c (serve_config fl))

  run_join-IsClean : (p : Parsed) → IsClean c (run_join w p).done
  unfolding run_join
  run_join-IsClean (exits n) = refl
  run_join-IsClean (parsed fl []) = refl
  run_join-IsClean (parsed fl (token ∷ rest)) =
      subst (IsClean c) (sym (joined-ended w (join w (join_config fl) token)))
        (join_releases w c (join_config fl) token)

  run_client-IsClean :
      (args : List Text) (o : Option (List Text → Clients.Ran)) → IsClean c (run_client args o).done
  unfolding run_client
  run_client-IsClean args none = refl
  run_client-IsClean args (some run) = refl

  run_command-IsClean :
      (h : Host) (cmd : Text) (args : List Text) → IsClean c (run_command w h cmd args).done
  unfolding run_command cmd_serve cmd_join
  run_command-IsClean h cmd args =
      if_elim (λ (e : Exit). IsClean c e.done) (text_eq cmd (codes "serve"))
        (λ _. run_serve-IsClean (parse_args (h.parser cmd) args))
        λ _.
          if_elim (λ (e : Exit). IsClean c e.done) (text_eq cmd (codes "join"))
            (λ _. run_join-IsClean (parse_args (h.parser cmd) args))
            (λ _. run_client-IsClean args (client_command h cmd))

  -- Whatever its arguments are, the program has released at its end what it acquired: each listener,
  -- Tailcat's server or client, and the hub.
  pub main-IsClean :
      (h : Host) (args : List Text)
      → acquired c (main w h args).done ≡ released c (main w h args).done
  unfolding main
  main-IsClean h [] = refl
  main-IsClean h (cmd ∷ args) =
      if_elim (λ (e : Exit). IsClean c e.done)
        (text_eq cmd (codes "-h") || text_eq cmd (codes "--help")) (λ _. refl)
        (λ _. run_command-IsClean h cmd args)
