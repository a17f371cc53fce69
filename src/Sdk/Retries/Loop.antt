-- ===== src/Sdk/Retries/Loop.antt =====
-- lib/sdo.c: the runs of TO1 in the loop of sdo_sdk_run, and where it gives up.
