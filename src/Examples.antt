-- ===== src/Examples.antt =====
-- Runs of the program on concrete input: internal/harbor/broker.go in Examples/Broker.antt, the pure parts
-- in Examples/Pure.antt, internal/harbor/shim.go and runs.go in Examples/Clients.antt, the proxy, the
-- installation and the lookups in Examples/Connections.antt, the stored runs and the listener in
-- Examples/Submitted.antt, waiters in Examples/Queue.antt, the commands in Examples/Commands.antt and
-- Examples/Installs.antt.
mod Broker
mod Pure
mod Clients
mod Connections
mod Submitted
mod Commands
mod Installs
mod Queue
