-- ===== src/Routing/Evaluator/Origin.antt =====
-- Which policy `genPolicy` gives to a connection, and that it does not panic.
use enimul.Common.{Bool, ◌||◌, Option, none, if◌then◌else◌, Bytes}
use enimul.Outcome.Ensures.{Ensures}
use enimul.Dst.{Dst}
use enimul.Policy.{Policy}
use enimul.Routing.{get_domain_policy}
use enimul.Routing.Evaluator.{Evaluator}

-- The policy of the domain that a connection to `origin` goes by: none for an address.
abbrev pub domain_of : Evaluator → Bytes → Bool → Option Policy
domain_of e origin is_ip =
    if is_ip || e.is_ip_text origin then none else get_domain_policy e.matcher origin
