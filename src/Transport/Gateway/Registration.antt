-- ===== src/Transport/Gateway/Registration.antt =====
-- The functions Register… of the two gateway files.
use kenshu_elaris_project_pa.Base.{ℕ, Option}
use kenshu_elaris_project_pa.Go.Text.{GoString}
use kenshu_elaris_project_pa.Go.Time.{Time}
use kenshu_elaris_project_pa.Go.Call.{
  Outcome, ok, Call, ◌>>=◌, ◌>>◌, pure, throw, of_outcome, perform, catch,
}
use kenshu_elaris_project_pa.Errors.{GoError}
use kenshu_elaris_project_pa.Port.{Event}
use kenshu_elaris_project_pa.App.Grpc.{Refusal}
use kenshu_elaris_project_pa.App.PaymentMaking.{PaymentMakingService}
use kenshu_elaris_project_pa.App.PaymentReissue.{PaymentReissueService}
use kenshu_elaris_project_pa.Dto.PayWithCardRequest.{PayWithCardRequest}
use kenshu_elaris_project_pa.Dto.ReissuePaymentRequest.{ReissuePaymentRequest}
use kenshu_elaris_project_pa.Infra.Outside.{GrpcDriver, InfraEvent, grpc_connected, grpc_closed}
use kenshu_elaris_project_pa.Transport.Gateway.{
  Runtime, Route, Served, pay_route, reissue_route, pay_server, reissue_server,
}

-- runtime.NewServeMux and the method Handle of a mux, which takes a route.
pub record MuxPackage (E T A M : Type 0) : Type 0 where
  pub new_serve_mux : M
  pub handle : Route E T A → M → M

module _ {E TS M : Type 0} (runtime : Runtime E)
    (mux_package : MuxPackage E (Event TS) (Served TS) M) where
  unfoldable pub register_pay_handler_server : PaymentMakingService E TS → M → Outcome GoError M
  register_pay_handler_server server mux =
      ok (mux_package.handle (pay_route runtime (pay_server server)) mux)

  unfoldable pub register_reissue_handler_server :
      (Time → TS) → PaymentReissueService E → M → Outcome GoError M
  register_reissue_handler_server new_timestamp server mux =
      ok (mux_package.handle (reissue_route runtime (reissue_server new_timestamp server)) mux)

-- The stubs of the generated clients, on a connection.
pub record Clients (E T A : Type 0) : Type 0 where
  pub pay : ℕ → Option PayWithCardRequest → Call E T Refusal A
  pub reissue : ℕ → Option ReissuePaymentRequest → Call E T Refusal A

module _ {E T A M : Type 0} (runtime : Runtime E) (mux_package : MuxPackage E T A M)
    (clients : Clients E T A) where
  -- RegisterPaymentMakingServiceHandler, which registers the client of the connection.
  unfoldable pub register_pay_handler : M → ℕ → Outcome GoError M
  register_pay_handler mux conn = ok (mux_package.handle (pay_route runtime (clients.pay conn)) mux)

  unfoldable pub register_reissue_handler : M → ℕ → Outcome GoError M
  register_reissue_handler mux conn =
      ok (mux_package.handle (reissue_route runtime (clients.reissue conn)) mux)

  -- The body of the functions …FromEndpoint: the connection is closed if the registration fails, and
  -- otherwise given back here, since a goroutine closes it when the context is done. An error of
  -- Close is logged.
  unfoldable pub register_from_endpoint :
      {S TM : Type 0}
      → GrpcDriver S TM
      → (ℕ → Outcome GoError M)
      → GoString
      → Call S InfraEvent GoError (M × ℕ)
  register_from_endpoint grpc register endpoint = do
    conn ← perform (grpc_connected endpoint) (grpc.new_client endpoint)
    mux ← catch (of_outcome (register conn)) (λ e.
        catch {Y = GoError} (perform (grpc_closed conn) (grpc.close_client conn)) (λ x. pure tt)
        >> throw e)
    pure (mux, conn)

  unfoldable pub register_pay_handler_from_endpoint :
      {S TM : Type 0} → GrpcDriver S TM → M → GoString → Call S InfraEvent GoError (M × ℕ)
  unfolding register_from_endpoint register_pay_handler
  register_pay_handler_from_endpoint grpc mux endpoint =
      register_from_endpoint grpc (register_pay_handler mux) endpoint

  unfoldable pub register_reissue_handler_from_endpoint :
      {S TM : Type 0} → GrpcDriver S TM → M → GoString → Call S InfraEvent GoError (M × ℕ)
  unfolding register_from_endpoint register_reissue_handler
  register_reissue_handler_from_endpoint grpc mux endpoint =
      register_from_endpoint grpc (register_reissue_handler mux) endpoint
