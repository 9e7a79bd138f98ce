-- ===== src/Main/Run/Checks.antt =====
-- internal/main.go: what a run that ends without an error has checked and closed.
use kenshu_elaris_project_pa.Base.{
  arith, ◌++◌, true, ◌≡◌, ap, inl, inr, false, Option-cases, none, some, List,
}
use kenshu_elaris_project_pa.Base.Int.{pos, ltb_ℤ}
use kenshu_elaris_project_pa.Go.Text.{GoString, lit}
use kenshu_elaris_project_pa.Go.Call.{
  Outcome, World, ok, query, of_outcome, Outcome-cases, is_ok, is_err, is_panicked, bind-eq-ok,
  map_err-eq-ok,
}
use kenshu_elaris_project_pa.Errors.{GoError, wrapped, error_text}
use kenshu_elaris_project_pa.Validation.{validate}
use kenshu_elaris_project_pa.Validation.Laws.{NotBlank}
use kenshu_elaris_project_pa.Config.{Configs, ServerConfig, load_configs}
use kenshu_elaris_project_pa.App.Init.{Services}
use kenshu_elaris_project_pa.App.Init.Laws.{init-ok}
use kenshu_elaris_project_pa.Infra
use kenshu_elaris_project_pa.Infra.Outside.{InfraEvent}
use kenshu_elaris_project_pa.Infra.Init.{Components}
use kenshu_elaris_project_pa.Infra.Ports.{Running, outside_packages, ports_of}
use kenshu_elaris_project_pa.Infra.System.{System, on_outside, or_fail}
use kenshu_elaris_project_pa.Transport.{HttpServer, http_validator, new_http_server, init_transport}
use kenshu_elaris_project_pa.Transport.Gateway.Registration.{
  register_pay_handler_server, register_reissue_handler_server,
}
use kenshu_elaris_project_pa.Main.Run.{
  Job, Program, do_jobs, start, init_services, serve, start_serving, run_services, run_with,
  run_from, run,
}
use kenshu_elaris_project_pa.Main.{shutdown}
use kenshu_elaris_project_pa.Main.Run.Ending.{shutdown-IsShut}

-- An outcome that has been handed on without an error.
handed_on :
    {E A : Type 0} (text : GoString) (o : Outcome GoError A) (w w' : World (System E) InfraEvent)
    (a : A)
    → or_fail text (of_outcome o) w ≡ (ok a, w')
    → o ≡ ok a
handed_on text o w w' a h =
    ap (λ p. p.0)
      (map_err-eq-ok (λ e. wrapped (text ++ (lit ": " ++ error_text e)) e) (of_outcome o) w w' a h)

new_http_server-checked :
    (cfg cfg' : ServerConfig)
    → new_http_server cfg (some tt) ≡ ok cfg'
    → validate (http_validator cfg (some tt)) ≡ none
unfolding new_http_server
new_http_server-checked cfg cfg' h = elim (Option-cases (validate (http_validator cfg (some tt)))) [
  | inl e ↦ e
  | inr (x, e) ↦ absurd (ground (arith, h, e))
]

module _ {E TS M : Type 0} (program : Program E TS M) where
  -- What a configuration fulfils with which the program has run.
  pub record IsRunnable (configs : Configs) : Type 0 where
    pub chance : ltb_ℤ configs.services.payment_making_card_config.fail_chance (pos 0) ≡ false
    pub host : NotBlank configs.services.payment_making_card_config.host
    pub server : validate (http_validator configs.app_config.server_config (some tt)) ≡ none

  init_services-checked :
      (configs : Configs) (components : Components) (services : Services (Running E) TS)
      (w w' : World (System E) InfraEvent)
      → init_services program configs components w ≡ (ok services, w')
      → (ltb_ℤ configs.services.payment_making_card_config.fail_chance (pos 0) ≡ false)
        × NotBlank configs.services.payment_making_card_config.host
  unfolding init_services ports_of
  init_services-checked configs components services w w' h =
      init-ok (outside_packages program.packages) configs _ _ _ _ _ _ services
        (handed_on (lit "init app services") _ w w' services h)

  init_transport-checked :
      (configs : Configs) (services : Services (Running E) TS) (serving : HttpServer × M)
      (w w' : World (System E) InfraEvent)
      → init_transport program.runtime program.mux_package program.packages.timestamps.new
          configs.app_config.server_config services w
        ≡ (ok serving, w')
      → validate (http_validator configs.app_config.server_config (some tt)) ≡ none
  unfolding init_transport register_pay_handler_server register_reissue_handler_server
  init_transport-checked configs services serving w w' h =
      let cfg = configs.app_config.server_config in
      elim (Outcome-cases (new_http_server cfg (some tt))) [
        | is_ok cfg' e ↦ new_http_server-checked cfg cfg' e
        | is_err x e ↦ absurd (ground (arith, h, e))
        | is_panicked e ↦ absurd (ground (arith, h, e))
      ]

  -- A run of the program that ends without an error, whatever came in meanwhile, has read a
  -- configuration whose failure chance is not negative, whose host of the payments is not blank and
  -- whose settings of the server pass their checks; and it has left the connection to RabbitMQ marked
  -- as closed, so that nothing dials again.
  pub run-ok :
      (jobs : List (Job TS)) (w w' : World (System E) InfraEvent)
      → run program jobs w ≡ (ok tt, w')
      → (configs : Configs) × ((program.parse w.env.outside).0 ≡ ok configs)
        × IsRunnable configs
        × (w'.env.connection.closed ≡ true)
  unfolding run run_from run_with run_services start_serving serve load_configs
  run-ok jobs w w' h =
      let (configs, w₁, parsed, h₁) =
        bind-eq-ok (or_fail (lit "load configs") (on_outside (query (load_configs program.parse))))
          (run_from program jobs) w h in
      let (components, w₂, _, h₂) =
        bind-eq-ok (Infra.Init.init program.drivers configs) (run_with program jobs configs) w₁
          h₁ in
      let (services, w₃, built, h₃) =
        bind-eq-ok (init_services program configs components)
          (run_services program jobs configs components) w₂ h₂ in
      let (started, w₄, _, h₄) =
        bind-eq-ok (start program services) (start_serving program jobs configs components services)
          w₃ h₃ in
      let (serving, w₅, made, h₅) =
        bind-eq-ok
          (init_transport program.runtime program.mux_package program.packages.timestamps.new
            configs.app_config.server_config services)
          (serve program jobs configs components services) w₄ h₄ in
      let (done, w₆, _, h₆) =
        bind-eq-ok (do_jobs program components services jobs)
          (λ (u : Unit {0}). shutdown program.drivers program.http components serving.0) w₅ h₅ in
      let (chance, host) = init_services-checked configs components services w₂ w₃ built in
      (
        configs,
        ap (λ p. p.0)
            (map_err-eq-ok (λ e. wrapped (lit "load configs" ++ (lit ": " ++ error_text e)) e)
              (on_outside (query (load_configs program.parse))) w w₁ configs parsed),
        record {
          chance = chance;
          host = host;
          server = init_transport-checked configs services serving w₄ w₅ made;
        },
        shutdown-IsShut program.drivers program.http components serving.0 w₆ w' h₆,
      )
