-- ===== src/Tests/Devices.antt =====
-- The devices of the fleet.
use rd_testing_project.Base.{refl, nat_eq}
use rd_testing_project.Base.Maps.{get}
use rd_testing_project.Models.{revoked}
use rd_testing_project.Handlers.Devices.Isolation.{IsRevoked}
use rd_testing_project.Tests.Fixtures.{fleet, device_of}

pub fleet-IsRevoked : IsRevoked 13 fleet.devices
unfolding get
fleet-IsRevoked = (device_of 13 2 revoked, refl, refl)
