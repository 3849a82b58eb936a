-- ===== src/Geoip/Tests.antt =====
-- The location services on concrete headers.
use front_basicrum_go.Base.{[], none, some}
use front_basicrum_go.Geoip.{Service}

abbrev by_address : Service
by_address header ip = record { country = ip; city = []; error = none }

abbrev failing : Service
failing header ip = record { country = []; city = []; error = some ip }
