-- ===== src/Main/Run.antt =====
-- internal/main.go: run, and Start of internal/app/init.go. The goroutines take turns call by call,
-- and the one of Start takes its first turn at once.
pub mod Ending
pub mod Checks
use kenshu_elaris_project_pa.Base.{List, [], ◌∷◌}
use kenshu_elaris_project_pa.Go.Text.{lit}
use kenshu_elaris_project_pa.Go.Time.{Time}
use kenshu_elaris_project_pa.Go.Call.{
  Outcome, ok, Act, Call, catch, ◌>>=◌, ◌>>◌, pure, of_outcome, query,
}
use kenshu_elaris_project_pa.Errors.{GoError}
use kenshu_elaris_project_pa.Port.{Event}
use kenshu_elaris_project_pa.Config.{Configs, load_configs}
use kenshu_elaris_project_pa.Dto.PayWithCardResponse.{PayWithCardResponse}
use kenshu_elaris_project_pa.App
use kenshu_elaris_project_pa.App.Unmarshal.{Delivery}
use kenshu_elaris_project_pa.App.InvoiceService.{process_invoice_delivery}
use kenshu_elaris_project_pa.App.PaymentMaking.{post_payment_work}
use kenshu_elaris_project_pa.App.Init.{Packages, Services}
use kenshu_elaris_project_pa.Infra.System.{SystemCall, on_outside, or_fail}
use kenshu_elaris_project_pa.Infra.Ports.{Running, Packaging, outside_packages, ports_of}
use kenshu_elaris_project_pa.Infra.Init.{Drivers, Components}
use kenshu_elaris_project_pa.Infra
use kenshu_elaris_project_pa.Transport.{HttpServer, HttpPackage, readiness_handler, init_transport}
use kenshu_elaris_project_pa.Transport.Gateway.{
  Request, PathParams, Runtime, Served, pay_route, reissue_route, pay_server, reissue_server,
}
use kenshu_elaris_project_pa.Transport.Gateway.Registration.{MuxPackage}
use kenshu_elaris_project_pa.Main.{shutdown}

-- What happens in the program while it runs: a delivery comes in, a request to one of the two routes
-- of the gateway, the turn of a goroutine that a payment has started, or a probe of readiness.
pub data Job (TS : Type 0) : Type 0 where
  delivered : Delivery → Job TS
  requested_payment : Request → PathParams → Job TS
  requested_reissue : Request → PathParams → Job TS
  paid : Time → PayWithCardResponse TS → Job TS
  probed : Job TS

-- net/http recovers from a panic of a handler.
abbrev pub recovered :
    {E X A : Type 0} → (Running E → Outcome X A × Running E) → SystemCall E (Unit {0})
recovered m w = (ok tt, (m w).1)

module _ {E TS : Type 0} where
  -- A call of a service, of which only the state of the program stays.
  abbrev pub on_services :
      {X A : Type 0} → Call (Running E) (Event TS) X A → Running E → Outcome X A × Running E
  on_services m w = let (o, w') = m (record { env = w; trace = [] }) in (o, w'.env)

  -- A goroutine: an error that it ends with is logged, and a panic ends the program.
  abbrev pub goroutine :
      {A : Type 0} → Call (Running E) (Event TS) GoError A → SystemCall E (Unit {0})
  goroutine m = catch (on_services m >> pure tt) (λ e. pure tt)

  abbrev pub request : {X A : Type 0} → Call (Running E) (Event TS) X A → SystemCall E (Unit {0})
  request m = recovered (on_services m)

-- The packages and the drivers of the program.
pub record Program (E TS M : Type 0) : Type 0 where
  pub parse : Act E GoError Configs
  pub drivers : Drivers E TS
  pub packaging : Packaging E TS
  pub packages : Packages E TS
  pub runtime : Runtime (Running E)
  pub mux_package : MuxPackage (Running E) (Event TS) (Served TS) M
  pub http : HttpPackage E

module _ {E TS M : Type 0} (program : Program E TS M) where
  unfoldable pub do_job : Components → Services (Running E) TS → Job TS → SystemCall E (Unit {0})
  do_job components services (delivered d) =
      goroutine (process_invoice_delivery services.invoice.service d)
  do_job components services (requested_payment req params) =
      request ((pay_route program.runtime (pay_server services.payment_making)).handler req params)
  do_job components services (requested_reissue req params) = request (
      (reissue_route program.runtime
          (reissue_server program.packages.timestamps.new services.payment_reissue)).handler
        req params)
  do_job components services (paid now response) =
      goroutine (post_payment_work services.payment_making now response)
  do_job components services probed =
      recovered (readiness_handler program.drivers.amqp program.drivers.mongo components.mongo_db)

  unfoldable pub do_jobs :
      Components → Services (Running E) TS → List (Job TS) → SystemCall E (Unit {0})
  unfolding do_job
  do_jobs components services [] = pure tt
  do_jobs components services (j ∷ js) =
      do_job components services j >> do_jobs components services js

  -- Start, up to the deliveries: what Consume comes to.
  unfoldable pub start : Services (Running E) TS → SystemCall E (Unit {0})
  start services =
      catch {Y = GoError} (services.invoice.invoice_consumer.consume >> pure tt) (λ e. pure tt)

  unfoldable pub init_services : Configs → Components → SystemCall E (Services (Running E) TS)
  init_services configs components = or_fail (lit "init app services") (
      of_outcome (
        App.Init.init (outside_packages program.packages) configs
          (ports_of program.drivers program.packaging components)))

  -- What run does with the services: the requests and deliveries of `jobs` come in, call by call,
  -- until the context is done.
  unfoldable pub serve :
      List (Job TS)
      → Configs
      → Components
      → Services (Running E) TS
      → HttpServer × M
      → SystemCall E (Unit {0})
  unfolding do_jobs
  serve jobs configs components services serving = do
    do_jobs components services jobs
    shutdown program.drivers program.http components serving.0

  unfoldable pub start_serving :
      List (Job TS)
      → Configs
      → Components
      → Services (Running E) TS
      → Unit {0}
      → SystemCall E (Unit {0})
  unfolding serve
  start_serving jobs configs components services started =
      init_transport program.runtime program.mux_package program.packages.timestamps.new
        configs.app_config.server_config services
      >>= serve jobs configs components services

  unfoldable pub run_services :
      List (Job TS) → Configs → Components → Services (Running E) TS → SystemCall E (Unit {0})
  unfolding start start_serving
  run_services jobs configs components services =
      start services >>= start_serving jobs configs components services

  unfoldable pub run_with : List (Job TS) → Configs → Components → SystemCall E (Unit {0})
  unfolding init_services run_services
  run_with jobs configs components =
      init_services configs components >>= run_services jobs configs components

  unfoldable pub run_from : List (Job TS) → Configs → SystemCall E (Unit {0})
  unfolding run_with
  run_from jobs configs = Infra.Init.init program.drivers configs >>= run_with jobs configs

  unfoldable pub run : List (Job TS) → SystemCall E (Unit {0})
  unfolding run_from
  run jobs =
      or_fail (lit "load configs") (on_outside (query (load_configs program.parse)))
      >>= run_from jobs
