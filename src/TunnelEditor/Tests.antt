-- ===== src/TunnelEditor/Tests.antt =====
-- Runs of the tunnels of a connection, and the theorem at a new one.
use condui.Prelude.{eq_iff, none, some, [], ◌∷◌, ◌≡◌, refl, arith}
use condui.Prelude.Text.{trim}
use condui.Prelude.Int.{pos}
use condui.ConnectionForm.{whole, other}
use condui.TunnelEditor.{
  Tunnel, Draft, port_of, is_other, taken, check_ports, check, replace, store, submit, remove,
  submit_saved, call_of, edit_tunnel, add_tunnel,
}
use condui.TunnelEditor.Ports.{IsValid, submit-IsValid}

abbrev web : Tunnel
web = record { id = "a"; local_port = 8080; remote_host = 49 ∷ []; remote_port = 80 }

abbrev db : Tunnel
db = record { id = "b"; local_port = 5432; remote_host = 49 ∷ []; remote_port = 5432 }

abbrev draft : Draft
draft = record {
  local_port = whole (pos 5432);
  remote_host = 32 ∷ 49 ∷ [];
  remote_port = whole (pos 5432);
}

-- editing a tunnel may leave its port, a new one may not take it
runs :
    (submit none "b" draft (web ∷ []) ≡ some (web ∷ db ∷ []))
    × (submit none "c" draft (web ∷ db ∷ []) ≡ none)
    × (submit (some "b") "c" draft (web ∷ db ∷ []) ≡ some (web ∷ db ∷ []))
    × (submit none "c" (record draft { local_port = other }) [] ≡ none)
    × (submit_saved "x" (some "b") draft (web ∷ db ∷ [])
        ≡ some (edit_tunnel "b" 5432 (49 ∷ []) 5432))
    × (submit_saved "x" none draft (web ∷ []) ≡ some (add_tunnel "x" 5432 (49 ∷ []) 5432))
unfolding submit submit_saved check check_ports port_of trim taken is_other store replace call_of
runs = (refl, refl, refl, refl, refl, refl)

submit-IsValid_example : IsValid (web ∷ db ∷ []) × IsValid (remove "a" (web ∷ db ∷ []))
unfolding submit check check_ports port_of trim taken is_other store replace
submit-IsValid_example =
    submit-IsValid none "b" draft (web ∷ []) (web ∷ db ∷ []) "a"
      (λ e. ground (arith, e, eq_iff "a" "b"), tt) refl
      record {
        openable = (((ground arith, ground arith), (ground arith, ground arith), refl), tt);
        ids = (tt, tt);
        ports = (tt, tt);
      }
