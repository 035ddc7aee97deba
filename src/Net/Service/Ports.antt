-- ===== src/Net/Service/Ports.antt =====
-- A service that sends first has its port for itself.
use rubyserver.Base.{
  ℕ, ◌≡◌, refl, subst, ◌⊎◌, inl, inr, Bool, false, ◌||◌, List, [], ◌∷◌, ◌++◌, Option, none, some,
  ◌==◌, arith, Bool-cases, if_either,
}
use rubyserver.Net.Service.{
  Service, ServicePort, is_single_socket, any_single_socket, add_service, open_port, Acceptors,
  find_port, set_port, new_port, add_to, add_found, add_to_port,
}

-- One service alone, or several of which none sends first.
abbrev pub IsShared : List Service → Type 0
IsShared [] = Unit
IsShared (svc ∷ []) = Unit
IsShared (svc ∷ other ∷ services) = any_single_socket (svc ∷ other ∷ services) ≡ false

abbrev pub AreShared : Acceptors → Type 0
AreShared [] = Unit
AreShared (port ∷ ports) = IsShared port.services × AreShared ports

any_single_socket-append :
    (xs : List Service) (svc : Service)
    → any_single_socket (xs ++ (svc ∷ [])) ≡ (any_single_socket xs || svc.server_sends_first)
unfolding any_single_socket
any_single_socket-append [] svc = ground arith
any_single_socket-append (x ∷ xs) svc = ground (arith, any_single_socket-append xs svc)

append-IsShared :
    (xs : List Service) (svc : Service)
    → any_single_socket xs ≡ false
    → (is_single_socket xs || svc.server_sends_first ≡ false) ⊎ (xs ≡ [])
    → IsShared (xs ++ (svc ∷ []))
unfolding any_single_socket is_single_socket
append-IsShared [] svc h k = tt
append-IsShared (x ∷ []) svc h k = ground (arith, h, k)
append-IsShared (x ∷ y ∷ xs) svc h k = ground (arith, h, k, any_single_socket-append (y ∷ xs) svc)

find_port-AreShared :
    (number : ℕ) (ports : Acceptors) (port : ServicePort)
    → AreShared ports
    → find_port number ports ≡ some port
    → IsShared port.services
unfolding find_port
find_port-AreShared number [] port h e = absurd (ground (arith, e))
find_port-AreShared number (p ∷ ports) port h e = elim (Bool-cases (p.server_port == number)) [
  | inl q ↦
      let same : p ≡ port = ground (arith, e, q) in
      subst (λ (r : ServicePort). IsShared r.services) same h.0
  | inr q ↦ find_port-AreShared number ports port h.1 (ground (arith, e, q))
]

set_port-AreShared :
    (new : ServicePort) (ports : Acceptors)
    → IsShared new.services
    → AreShared ports
    → AreShared (set_port new ports)
unfolding set_port
set_port-AreShared new [] h k = (h, tt)
set_port-AreShared new (p ∷ ports) h k =
    if_either AreShared (p.server_port == new.server_port) (new ∷ ports) (p ∷ set_port new ports)
      ((h, k.1)) ((k.0, set_port-AreShared new ports h k.1))

add_service-IsShared :
    (svc : Service) (port : ServicePort)
    → IsShared port.services
    → (is_single_socket port.services || svc.server_sends_first ≡ false) ⊎ (port.services ≡ [])
    → IsShared (add_service svc port).1.services
unfolding add_service
add_service-IsShared svc port h k = elim (Bool-cases (any_single_socket port.services)) [
  | inl e ↦ rw (e, add_service) h
  | inr e ↦ rw (e, add_service) (append-IsShared port.services svc e k)
]

add_to-AreShared :
    (svc : Service) (port : ServicePort) (acceptors : Acceptors)
    → AreShared acceptors
    → IsShared port.services
    → (is_single_socket port.services || svc.server_sends_first ≡ false) ⊎ (port.services ≡ [])
    → AreShared (add_to svc port acceptors).1
unfolding add_to
add_to-AreShared svc port acceptors h k free =
    set_port-AreShared (add_service svc port).1 acceptors (add_service-IsShared svc port k free) h

open_port-services : (fails : Bool) (number : ℕ) → (open_port fails number new_port).services ≡ []
unfolding open_port
open_port-services fails number = refl

add_found-AreShared :
    (found : Option ServicePort) (fails : Bool) (number : ℕ) (svc : Service) (acceptors : Acceptors)
    → find_port number acceptors ≡ found
    → AreShared acceptors
    → AreShared (add_found found fails number svc acceptors).1
unfolding add_found
add_found-AreShared none fails number svc acceptors e h =
    add_to-AreShared svc (open_port fails number new_port) acceptors h (unfold open_port in tt)
      (inr (open_port-services fails number))
add_found-AreShared (some port) fails number svc acceptors e h =
    elim (Bool-cases (is_single_socket port.services || svc.server_sends_first)) [
      | inl q ↦ rw (q, add_found) h
      | inr q ↦
          rw (q, add_found)
            (add_to-AreShared svc port acceptors h (find_port-AreShared number acceptors port h e)
              (inl q))
    ]

-- Whatever services are added to whatever ports, a service that sends first keeps its port for
-- itself: a port has one service, or services of which none sends first.
pub add_to_port-AreShared :
    (fails : Bool) (number : ℕ) (svc : Service) (acceptors : Acceptors)
    → AreShared acceptors
    → AreShared (add_to_port fails number svc acceptors).1
unfolding add_to_port
add_to_port-AreShared fails number svc acceptors h = elim (Bool-cases (number == 0)) [
  | inl e ↦ rw (e, add_to_port) h
  | inr e ↦
      rw (e, add_to_port)
        (add_found-AreShared (find_port number acceptors) fails number svc acceptors refl h)
]
