-- ===== src/Infra/Clock.antt =====
-- internal/infra/clock/clock.go
use kenshu_elaris_project_pa.Base.{ℕ, Option, none, some}
use kenshu_elaris_project_pa.Go.Text.{lit}
use kenshu_elaris_project_pa.Go.Time.{Time}
use kenshu_elaris_project_pa.Go.Call.{ok, err, panicked, Act, Call, ◌>>=◌, pure, throw, perform}
use kenshu_elaris_project_pa.Errors.{GoError}
use kenshu_elaris_project_pa.Validation.{
  Validator, int, ◌▷◌, new_validator, not_blank, positive_value, validate,
}
use kenshu_elaris_project_pa.Config
use kenshu_elaris_project_pa.Port
use kenshu_elaris_project_pa.Infra.Outside.{GrpcDriver, InfraEvent, grpc_connected, grpc_closed}
use kenshu_elaris_project_pa.Infra.Duration.{host_and_port}

-- The client is made of the connection.
pub record Clock : Type 0 where
  pub conn : ℕ

unfoldable pub clock_validator : Config.Services → Validator
unfolding new_validator not_blank positive_value
clock_validator config =
    new_validator
    ▷ not_blank (lit "clock.grpc_host") config.clock_simulator_config.grpc_host
    ▷ positive_value (lit "clock.grpc_port") (some (int config.clock_simulator_config.grpc_port))

module _ {E TS : Type 0} (grpc : GrpcDriver E TS) where
  unfoldable pub new_clock : Config.Services → Call E InfraEvent GoError Clock
  unfolding host_and_port
  new_clock config = elim (validate (clock_validator config)) [
    | some e ↦ throw e
    | none ↦ do
      let target =
          host_and_port config.clock_simulator_config.grpc_host
            config.clock_simulator_config.grpc_port
      conn ← perform (grpc_connected target) (grpc.new_client target)
      pure (record { conn = conn })
  ]

  -- Now, with AsTime on the field of the answer.
  unfoldable pub now : (Option TS → Time) → Clock → Act E GoError Time
  now as_time e outside =
      let (o, after) = grpc.now e.conn outside in
      elim o [
        | ok event ↦ (ok (as_time event.time), after)
        | err x ↦ (err x, after)
        | panicked ↦ (panicked, after)
      ]

  unfoldable pub close : Clock → Call E InfraEvent GoError (Unit {0})
  close e = perform (grpc_closed e.conn) (grpc.close_client e.conn)

  -- The port that the services call.
  unfoldable pub clock_port : (Option TS → Time) → Clock → Port.Clock E
  unfolding now
  clock_port as_time e = record { now = now as_time e }
