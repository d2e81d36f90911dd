-- ===== src/App/Server/Waiting.antt =====
-- server/app/server.go, Options.Run: what it returns, and when it never does.
use kube_haproxy.Prelude.{
  String, Bool, false, Option, none, some, List, [], ◌∷◌, ◌++◌, ◌≡◌, refl, sym, ap, ◌∙◌, ◌↔◌,
  if◌then◌else◌, string_eq,
}
use kube_haproxy.External.{External}
use kube_haproxy.App.Cleanup.{cleanup_and_exit}
use kube_haproxy.App.Server.{
  Host, Result, ok, failed, panics, Options, ProxyServer, new_proxy_server, server_run,
  receive_error, Ending, returns, waits, aborts, Sent, run_loop, run, sent_by, receive,
}
use kube_haproxy.App.Server.Building.{new_proxy_server-IsStarted}
use kube_haproxy.Haproxy.Dataplane.{Dataplane}
use kube_haproxy.Haproxy.Host.{HaproxyHandle, new_haproxy_handle}

abbrev pub AllNil : List (Option String) → Type 0
AllNil [] = Unit
AllNil (e ∷ errors) = (e ≡ none) × AllNil errors

-- An error that only nil errors stand before.
pub record FirstError (error : String) (errors : List (Option String)) : Type 0 where
  pub nils : List (Option String)
  pub rest : List (Option String)
  pub is : errors ≡ nils ++ some error ∷ rest
  pub all_nil : AllNil nils

module _ (host : Host) (x : External) {L : Type 0} (empty_list : L) where
  received-FirstError :
      (error : String) (errors : List (Option String))
      → receive_error host errors ≡ some error
      → FirstError error errors
  unfolding receive_error
  received-FirstError error [] e = cc e
  received-FirstError error (none ∷ errors) e =
      let f = received-FirstError error errors e in
      record {
        nils = none ∷ f.nils;
        rest = f.rest;
        is = ap (λ r. none ∷ r) f.is;
        all_nil = (refl, f.all_nil);
      }
  received-FirstError error (some other ∷ errors) e = record {
    nils = [];
    rest = errors;
    is = ap (λ r. r ∷ errors) e;
    all_nil = tt;
  }

  passes_nils :
      (nils rest : List (Option String))
      → AllNil nils
      → receive_error host (nils ++ rest) ≡ receive_error host rest
  unfolding receive_error
  passes_nils [] rest h = refl
  passes_nils (none ∷ nils) rest h = passes_nils nils rest h.1
  passes_nils (some e ∷ nils) rest h = cc h.0

  FirstError-received :
      (error : String) (errors : List (Option String))
      → FirstError error errors
      → receive_error host errors ≡ some error
  unfolding receive_error
  FirstError-received error errors f =
      ap (receive_error host) f.is ∙ passes_nils f.nils (some error ∷ f.rest) f.all_nil

  received-AllNil :
      (errors : List (Option String)) → receive_error host errors ≡ none → AllNil errors
  unfolding receive_error
  received-AllNil [] e = tt
  received-AllNil (none ∷ errors) e = (refl, received-AllNil errors e)
  received-AllNil (some other ∷ errors) e = cc e

  AllNil-received :
      (errors : List (Option String)) → AllNil errors → receive_error host errors ≡ none
  unfolding receive_error
  AllNil-received [] h = refl
  AllNil-received (none ∷ errors) h = AllNil-received errors h.1
  AllNil-received (some e ∷ errors) h = cc h.0

  -- How runLoop ends, by the error that it gets.
  abbrev ending : Option String → Ending host
  ending none = waits
  ending (some error) = returns (some error)

  ending-error :
      (o : Option String) (error : String) → ending o ≡ returns (some error) → o ≡ some error
  ending-error none error e = cc e
  ending-error (some other) error e = cc e

  ending-none : (o : Option String) → ending o ≡ waits → o ≡ none
  ending-none none e = refl
  ending-none (some other) e = cc e

  module _ (dp : HaproxyHandle → Dataplane) (sent : Sent host) (opt : Options host)
      (w : (dp (new_haproxy_handle opt.haproxy_info)).World) where
    -- What Options.Run makes of the server.
    abbrev ended : Bool → Result (ProxyServer host L × Options host) → Ending host
    ended cleanup server = elim server [
      | failed error ↦ returns (some error)
      | panics ↦ aborts
      | ok (s, opt') ↦
          if cleanup
          then returns (cleanup_and_exit (dp (new_haproxy_handle opt.haproxy_info)) w).0
          else run_loop host x empty_list sent s
    ]

    -- The result of ProxyServer.Run, by the flag of the server.
    abbrev looped : Bool → Ending host
    looped hard_fail =
        let run_end =
          sent_by host
            (receive host x empty_list (if hard_fail then some sent.to_server else none)) in
        ending (receive_error host (sent.handled_before ++ (run_end ++ sent.handled_after)))

    run_ends :
        (r : ProxyServer host L × Options host)
        → opt.cleanup_and_exit ≡ false
        → new_proxy_server host x empty_list opt ≡ ok r
        → run host x empty_list dp sent opt w
          ≡ ending (receive_error host (sent.handled_before ++ sent.handled_after))
    unfolding run run_loop server_run
    run_ends r c e =
        let started = new_proxy_server-IsStarted host x empty_list opt c e in
        ap (λ b. ended b (new_proxy_server host x empty_list opt)) c
        ∙ ap (ended false) e
        ∙ ap looped started.hard_fail

    -- Out of the cleanup mode and with a server that newProxyServer gives, Options.Run returns an error
    -- exactly if it is the first error that errorHandler is given, nil errors aside, and never returns
    -- exactly if errorHandler is given none, whatever is sent to the channel of ProxyServer.Run.
    pub run-returns_first :
        (r : ProxyServer host L × Options host)
        → opt.cleanup_and_exit ≡ false
        → new_proxy_server host x empty_list opt ≡ ok r
        → ((error : String)
            → (run host x empty_list dp sent opt w ≡ returns (some error))
              ↔ FirstError error (sent.handled_before ++ sent.handled_after))
          × ((run host x empty_list dp sent opt w ≡ waits)
              ↔ AllNil (sent.handled_before ++ sent.handled_after))
    run-returns_first r c e =
        let errors = sent.handled_before ++ sent.handled_after in
        let ends = run_ends r c e in
        (
          λ error. (
            λ h.
                received-FirstError error errors
                  (ending-error (receive_error host errors) error (sym ends ∙ h)),
            λ f. ends ∙ ap ending (FirstError-received error errors f),
          ),
          (
            λ h. received-AllNil errors (ending-none (receive_error host errors) (sym ends ∙ h)),
            λ a. ends ∙ ap ending (AllNil-received errors a),
          ),
        )
