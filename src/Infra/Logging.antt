-- ===== src/Infra/Logging.antt =====
-- internal/infra/logging/log.go
use kenshu_elaris_project_pa.Base.{◌≡◌, refl, Bool, Option, none, some, List, [], ◌∷◌, ◌++◌}
use kenshu_elaris_project_pa.Base.Int.{ℤ}
use kenshu_elaris_project_pa.Go.Text.{GoString, lit}

-- Attributes of package slog whose values are texts.
abbrev pub Attrs : Type 0
Attrs = List (GoString × GoString)

pub record LogRecord : Type 0 where
  pub message : GoString
  pub attrs : Attrs

-- The interface slog.Handler on handlers of type H, with what a handled record comes to; and the
-- handler that slog.NewJSONHandler makes for a level.
pub record Slog (H Out : Type 0) : Type 0 where
  pub enabled : H → ℤ → Bool
  pub handle : H → LogRecord → Out
  pub with_attrs : H → Attrs → H
  pub with_group : H → GoString → H
  pub json_handler : ℤ → H

-- A valid span context of a context.
pub record SpanContext : Type 0 where
  pub trace_id : GoString
  pub span_id : GoString

pub record TraceHandler (H : Type 0) : Type 0 where
  pub base : H

-- The attributes that Handle adds; `none` is a span context that is not valid.
unfoldable pub span_attrs : Option SpanContext → Attrs
span_attrs none = []
span_attrs (some sc) = (lit "trace_id", sc.trace_id) ∷ (lit "span_id", sc.span_id) ∷ []

-- What os.Hostname gives, or else a text; `none` is an error.
abbrev pub app_name : Option GoString → GoString
app_name none = lit "unknown"
app_name (some hostname) = hostname

module _ {H Out : Type 0} (slog : Slog H Out) where
  unfoldable pub enabled : TraceHandler H → ℤ → Bool
  enabled h level = slog.enabled h.base level

  unfoldable pub handle : TraceHandler H → Option SpanContext → LogRecord → Out
  unfolding span_attrs
  handle h sc r = slog.handle h.base (record r { attrs = r.attrs ++ span_attrs sc })

  unfoldable pub with_attrs : TraceHandler H → Attrs → TraceHandler H
  with_attrs h attrs = record { base = slog.with_attrs h.base attrs }

  unfoldable pub with_group : TraceHandler H → GoString → TraceHandler H
  with_group h name = record { base = slog.with_group h.base name }

  -- NewLogger: the handler of the logger.
  unfoldable pub new_logger : ℤ → Option GoString → TraceHandler H
  unfolding with_attrs
  new_logger level hostname =
      with_attrs (record { base = slog.json_handler level }) ((lit "app", app_name hostname) ∷ [])

  -- A logger that is made of another one, by With or by WithGroup, and so on.
  pub data Derivation : Type 0 where
    attrs : Attrs → Derivation
    group : GoString → Derivation

  abbrev pub derived : TraceHandler H → List Derivation → TraceHandler H
  derived h [] = h
  derived h (attrs a ∷ ds) = derived (with_attrs h a) ds
  derived h (group name ∷ ds) = derived (with_group h name) ds

  abbrev pub derived_base : H → List Derivation → H
  derived_base b [] = b
  derived_base b (attrs a ∷ ds) = derived_base (slog.with_attrs b a) ds
  derived_base b (group name ∷ ds) = derived_base (slog.with_group b name) ds

  -- However a logger has been made of the one of NewLogger, by With and WithGroup, it handles a record
  -- as the handler of package slog does that has been made in the same way, with the identifiers of
  -- the trace and of the span added, if the context has a valid one, and with the name of the host.
  pub handle-derived :
      (level : ℤ) (hostname : Option GoString) (ds : List Derivation) (sc : Option SpanContext)
      (r : LogRecord)
      → handle (derived (new_logger level hostname) ds) sc r
        ≡ slog.handle
            (derived_base
              (slog.json_handler level)
              (attrs ((lit "app", app_name hostname) ∷ []) ∷ ds))
            (record r { attrs = r.attrs ++ span_attrs sc })
  unfolding handle with_attrs with_group new_logger
  handle-derived level hostname ds sc r = from (new_logger level hostname) ds
    where
      from :
          (h : TraceHandler H) (ds : List Derivation)
          → handle (derived h ds) sc r
            ≡ slog.handle (derived_base h.base ds) (record r { attrs = r.attrs ++ span_attrs sc })
      from h [] = refl
      from h (attrs a ∷ ds) = from (with_attrs h a) ds
      from h (group name ∷ ds) = from (with_group h name) ds
