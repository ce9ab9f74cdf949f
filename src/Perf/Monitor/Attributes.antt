-- ===== src/Perf/Monitor/Attributes.antt =====
-- The attributes that `fixupEventAttr` of pkg/sys/perf/monitor.go leaves.
use capsule.Prelude.{◌≤◌, ◌↔◌, true, false, ◌≡◌, refl}
use capsule.Prelude.Outcome.{ok}
use capsule.Perf.Attr.{EventAttr, layout, write}
use capsule.Perf.Attr.Write.{Writable, write-Writable}
use capsule.Perf.Monitor.{fixup_event_attr}

fixed-Writable :
    (ea : EventAttr)
    → Writable (fixup_event_attr ea)
    → (ea.sample_freq ≡ 0) × (ea.precise_ip ≤ 3) × (ea.wakeup_events ≡ 0)
unfolding fixup_event_attr
fixed-Writable ea w = (w.frequency refl, w.precise, w.events refl)

Writable-fixed :
    (ea : EventAttr)
    → (ea.sample_freq ≡ 0) × (ea.precise_ip ≤ 3) × (ea.wakeup_events ≡ 0)
    → Writable (fixup_event_attr ea)
unfolding fixup_event_attr
Writable-fixed ea (f, p, e) = record {
  period = λ z. (let q : false ≡ true = z in cc);
  frequency = λ z. f;
  precise = p;
  events = λ z. e;
  level = λ z. (let q : true ≡ false = z in cc);
}

-- What `fixupEventAttr` makes of a client's attributes can be written exactly where the client left
-- the frequency and the number of wake-up events 0, which it does not reset, and asked for no
-- precision above 3.
pub write-fixup_event_attr :
    (ea : EventAttr)
    → (write (fixup_event_attr ea) ≡ ok (layout (fixup_event_attr ea)))
      ↔ ((ea.sample_freq ≡ 0) × (ea.precise_ip ≤ 3) × (ea.wakeup_events ≡ 0))
write-fixup_event_attr ea = (
  λ h.
      fixed-Writable ea
        ((write-Writable (fixup_event_attr ea) (layout (fixup_event_attr ea))).0 h).0,
  λ h.
      (write-Writable (fixup_event_attr ea) (layout (fixup_event_attr ea))).1
        (Writable-fixed ea h, refl),
)
